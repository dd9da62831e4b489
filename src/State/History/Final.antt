-- ===== src/State/History/Final.antt =====
-- Histories: a decided request stays, unchanged, and its final status is final.
use shudo.Prelude.{
  Bool-cases, ◌⊎◌, sym, ap, ◌≡◌, refl, ◌∙◌, inl, inr, true, false, some, List, [], ◌∷◌, Bytes,
  arith, true_and_false,
}
use shudo.Model.{Status, created, is_terminal}
use shudo.State.Sql.{exists_where}
use shudo.State.Tables.{Codec, RequestRow, Tables, approval_of, row_of}
use shudo.State.Requests.{can_move}
use shudo.State.History.{StoreOp, apply_op, run_ops}
use shudo.State.History.Fate.{Follows}
use shudo.State.History.Steps.{apply_op-Fate}
use shudo.State.History.Decisions.{apply_op-Decided}
use shudo.State.History.Once.{exists_where-Decided}

-- No edge of the table leaves a final status.
pub can_move-is_terminal : (s next : Status) → is_terminal s ≡ true → can_move s next ≡ false
unfolding is_terminal can_move
can_move-is_terminal created next h = cc
can_move-is_terminal _ next h = ground arith

-- What a decided request keeps.
pub record Audited (r r' : RequestRow) : Type 0 where
  pub same_hash : r'.request_hash ≡ r.request_hash
  pub same_json : r'.request_json ≡ r.request_json
  pub same_expires : r'.expires_at ≡ r.expires_at
  pub final : (is_terminal r.status ≡ false) ⊎ (r'.status ≡ r.status)

Audited-refl : (r : RequestRow) → Audited r r
Audited-refl r = record {
  same_hash = refl;
  same_json = refl;
  same_expires = refl;
  final = inr refl;
}

Follows-status_final :
    (r r' : RequestRow) → Follows r r' → is_terminal r.status ≡ true → r'.status ≡ r.status
Follows-status_final r r' f h = elim f.status_moves [
  | inl e ↦ e
  | inr edge ↦ true_and_false edge (can_move-is_terminal r.status r'.status h)
]

final_trans :
    (r r' r'' : RequestRow)
    → Follows r r'
    → (is_terminal r'.status ≡ false) ⊎ (r''.status ≡ r'.status)
    → (is_terminal r.status ≡ false) ⊎ (r''.status ≡ r.status)
final_trans r r' r'' f a = elim (Bool-cases (is_terminal r.status)) [
  | inr open' ↦ inl open'
  | inl ended ↦
      let e = Follows-status_final r r' f ended in
      elim a [
        | inl open' ↦ true_and_false ended (ap is_terminal (sym e) ∙ open')
        | inr e' ↦ inr (e' ∙ e)
      ]
]

Follows-Audited : (r r' r'' : RequestRow) → Follows r r' → Audited r' r'' → Audited r r''
Follows-Audited r r' r'' f a = record {
  same_hash = a.same_hash ∙ f.same_hash;
  same_json = a.same_json ∙ f.same_json;
  same_expires = a.same_expires ∙ f.same_expires;
  final = final_trans r r' r'' f a.final;
}

-- Whatever operations of the store run, a request with a stored decision is not removed, its hash,
-- its content and its expiry do not change, and a final status that it has it keeps.
pub run_ops-Audited :
    (c : Codec) (ops : List StoreOp) (id : Bytes) (r : RequestRow) (t : Tables)
    → row_of id t ≡ some r
    → exists_where (approval_of id) t.approvals ≡ true
    → (r' : RequestRow) × (row_of id (run_ops c ops t) ≡ some r') × Audited r r'
unfolding run_ops
run_ops-Audited c [] id r t found decided = (r, found, Audited-refl r)
run_ops-Audited c (op ∷ ops) id r t found decided = elim (apply_op-Fate c op id r t found) [
  | inr (gone, undecided) ↦ true_and_false decided undecided
  | inl (r', there, follows) ↦
      let (r'', last, audited) =
        run_ops-Audited c ops id r' (apply_op c op t) there
          (exists_where-Decided id (apply_op-Decided c op t) decided) in
      (r'', last, Follows-Audited r r' r'' follows audited)
]
