-- ===== src/State/History/Fate.antt =====
-- What one operation of the store can do to the row of a request.
use mathlib.Core.Option
use shudo.Prelude.{
  ◌≤◌, ◌≡◌, refl, ap, ◌∙◌, ◌⊎◌, inl, inr, Bool, true, false, none, some, List, [], ◌∷◌, Bytes,
  arith, Bool-cases, &&-true, if◌then◌else◌,
}
use shudo.Model.{
  Status, queued, synced, waiting, approved, expired, policy_rejected, executing, failed, created,
  status_eq, status_eq_iff, status_in,
}
use shudo.State.Sql.{select_first, exists_where, update_where, select_first-update_where}
use shudo.State.Tables.{RequestRow, Tables, of_request, approval_of, row_of}
use shudo.State.Requests.{can_move, has_status, move_row}

pub record Follows (r r' : RequestRow) : Type 0 where
  pub same_id : r'.request_id ≡ r.request_id
  pub same_hash : r'.request_hash ≡ r.request_hash
  pub same_json : r'.request_json ≡ r.request_json
  pub same_created : r'.created_at ≡ r.created_at
  pub same_expires : r'.expires_at ≡ r.expires_at
  pub status_moves : (r'.status ≡ r.status) ⊎ (can_move r.status r'.status ≡ true)
  pub bytes_grow : r.output_bytes ≤ r'.output_bytes

pub Follows-refl : (r : RequestRow) → Follows r r
Follows-refl r = record {
  same_id = refl;
  same_hash = refl;
  same_json = refl;
  same_created = refl;
  same_expires = refl;
  status_moves = inl refl;
  bytes_grow = omega arith;
}

pub Follows-status :
    (r : RequestRow) (next : Status)
    → can_move r.status next ≡ true
    → Follows r (record r { status = next })
Follows-status r next h = record {
  same_id = refl;
  same_hash = refl;
  same_json = refl;
  same_created = refl;
  same_expires = refl;
  status_moves = inr h;
  bytes_grow = omega arith;
}

-- The request is there after the operation, or it was deleted and had no approval.
abbrev pub Kept : Bytes → RequestRow → List RequestRow → Type 0
Kept id r rows = (r' : RequestRow) × (select_first (of_request id) rows ≡ some r') × Follows r r'

abbrev pub Fate : Bytes → RequestRow → Tables → Tables → Type 0
Fate id r t t' =
    Kept id r t'.requests
    ⊎ ((row_of id t' ≡ none) × (exists_where (approval_of id) t.approvals ≡ false))

pub Kept-same :
    (id : Bytes) (r : RequestRow) {rows rows' : List RequestRow}
    → rows' ≡ rows
    → select_first (of_request id) rows ≡ some r
    → Kept id r rows'
Kept-same id r e h = (r, ap (select_first (of_request id)) e ∙ h, Follows-refl r)

-- An update of the table keeps each row if it does so where it hits.
pub Kept-update :
    (id : Bytes) (hit : RequestRow → Bool) (f : RequestRow → RequestRow)
    → ((r : RequestRow) → of_request id (f r) ≡ of_request id r)
    → ((r : RequestRow) → hit r ≡ true → Follows r (f r))
    → (r : RequestRow) (rows : List RequestRow) {rows' : List RequestRow}
    → rows' ≡ update_where hit f rows
    → select_first (of_request id) rows ≡ some r
    → Kept id r rows'
Kept-update id hit f keep follows r rows e h = (
  if hit r then f r else r,
  ap (select_first (of_request id)) e
      ∙ select_first-update_where (of_request id) hit f keep rows
      ∙ ap (Option.map (λ s. if hit s then f s else s)) h,
  elim (Bool-cases (hit r)) [ inl b ↦ rw b (follows r b) | inr b ↦ rw b (Follows-refl r) ],
)

pub Kept-move_row :
    (id j : Bytes) (next current : Status) (r : RequestRow) (t : Tables) {t' : Tables}
    → can_move current next ≡ true
    → t' ≡ move_row j next current t
    → row_of id t ≡ some r
    → Kept id r t'.requests
Kept-move_row id j next current r t edge e =
    Kept-update id (has_status j current) (λ s. record s { status = next }) (λ s. refl)
      (λ s hit.
        Follows-status s next
          (rw ((status_eq_iff s.status current).0 (&&-true (of_request j s) _ hit).1) edge))
      r t.requests (ap (λ (u : Tables). u.requests) e)

-- The statuses that expiry and migration move have an edge to where they move.
pub can_move-expired :
    (s : Status)
    → status_in s (queued ∷ synced ∷ waiting ∷ approved ∷ []) ≡ true
    → can_move s expired ≡ true
unfolding can_move
can_move-expired created h = cc
can_move-expired _ h = ground arith

pub can_move-policy_rejected :
    (s : Status)
    → status_in s (queued ∷ synced ∷ waiting ∷ approved ∷ []) ≡ true
    → can_move s policy_rejected ≡ true
unfolding can_move
can_move-policy_rejected created h = cc
can_move-policy_rejected _ h = ground arith

pub can_move-failed : (s : Status) → status_eq s executing ≡ true → can_move s failed ≡ true
unfolding can_move
can_move-failed created h = cc
can_move-failed _ h = ground arith
