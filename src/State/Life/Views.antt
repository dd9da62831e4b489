-- ===== src/State/Life/Views.antt =====
-- How updates and insertions of rows change the view of a request.
use shudo.Prelude.{
  ◌≡◌, refl, ap, ◌∙◌, sym, ◌⊎◌, inl, inr, Bool, true, false, Option, none, some, List, [], ◌∷◌,
  ◌++◌, Bytes, arith, Bool-cases, Option-cases, if◌then◌else◌, str_eq, str_eq_iff, true_and_false,
}
use mathlib.Core.Option
use mathlib.Core.Path.{subst}
use shudo.Model.{Status, created}
use shudo.State.Sql.{
  select_first, exists_where, update_where, select_first-update_where, select_first-passes,
}
use shudo.State.Tables.{RequestRow, Tables, of_request, row_of}
use shudo.State.Requests.{can_move}
use shudo.State.Life.{View, is_gated, Step, idle, moved, submitted, brief, ballot_of, view}

pub view_eq : {v w : View} → v.request ≡ w.request → v.ballot ≡ w.ballot → v ≡ w
view_eq p q = λ i. record { request = p i; ballot = q i }

module _ {ℓ} {R : Type ℓ} (p : R → Bool) where
  -- Rows at the end that do not pass are not found, and what is not found before is found there.
  pub select_first-append_others :
      (rows more : List R)
      → select_first p more ≡ none
      → select_first p (rows ++ more) ≡ select_first p rows
  unfolding select_first
  select_first-append_others [] more h = h
  select_first-append_others (r ∷ rows) more h =
      ground (arith, select_first-append_others rows more h)

  pub select_first-append_new :
      (rows more : List R)
      → select_first p rows ≡ none
      → select_first p (rows ++ more) ≡ select_first p more
  unfolding select_first
  select_first-append_new [] more h = refl
  select_first-append_new (r ∷ rows) more h = ground (arith, select_first-append_new rows more)

  pub select_first-fresh :
      (rows : List R) → exists_where p rows ≡ false → select_first p rows ≡ none
  unfolding select_first exists_where
  select_first-fresh [] h = refl
  select_first-fresh (r ∷ rows) h = ground (arith, select_first-fresh rows)

abbrev pub set_status : Status → RequestRow → RequestRow
set_status next r = record r { status = next }

-- The row of a request after an update of the status of the rows that `hit` selects.
row_of-update :
    (id : Bytes) (hit : RequestRow → Bool) (next : Status) (t t' : Tables)
    → t'.requests ≡ update_where hit (set_status next) t.requests
    → row_of id t' ≡ Option.map (λ r. if hit r then set_status next r else r) (row_of id t)
row_of-update id hit next t t' e =
    ap (select_first (of_request id)) e
    ∙ select_first-update_where (of_request id) hit (set_status next) (λ r. refl) t.requests

-- Whether the update hits the row of the request or not.
pub view-update :
    (id : Bytes) (hit : RequestRow → Bool) (next : Status) (t t' : Tables)
    → t'.requests ≡ update_where hit (set_status next) t.requests
    → ((view id t').request ≡ (view id t).request)
      ⊎ ((r : RequestRow) × (row_of id t ≡ some r)
          × (hit r ≡ true)
          × ((view id t').request ≡ some (record (brief r) { status = next })))
unfolding view
view-update id hit next t t' e = elim (Option-cases (row_of id t)) [
  | inl absent ↦ inl (rw (row_of-update id hit next t t' e, absent) refl)
  | inr (r, found) ↦ elim (Bool-cases (hit r)) [
    | inl h ↦ inr (r, found, h, rw (row_of-update id hit next t t' e, found, h) refl)
    | inr h ↦ inl (rw (row_of-update id hit next t t' e, found, h) refl)
  ]
]

-- An update of the status along edges to a status that is not gated, with the same decisions.
pub update-Step :
    (id : Bytes) (hit : RequestRow → Bool) (next : Status) (t t' : Tables)
    → is_gated next ≡ false
    → ((r : RequestRow) → hit r ≡ true → can_move r.status next ≡ true)
    → t'.requests ≡ update_where hit (set_status next) t.requests
    → t'.approvals ≡ t.approvals
    → Step (view id t) (view id t')
unfolding view
update-Step id hit next t t' plain edge e a =
    let same_ballot = ap (ballot_of id) a in
    elim (view-update id hit next t t' e) [
      | inl same ↦ idle (view_eq same same_ballot)
      | inr (r, found, h, w) ↦
          moved (brief r) next (ap (Option.map brief) found) (edge r h) plain
            (view_eq w same_ballot)
    ]

one_row :
    (id : Bytes) (row : RequestRow)
    → str_eq row.request_id id ≡ true
    → select_first (of_request id) (row ∷ []) ≡ some row
unfolding select_first
one_row id row h = ground arith

other_row :
    (id : Bytes) (row : RequestRow)
    → str_eq row.request_id id ≡ false
    → select_first (of_request id) (row ∷ []) ≡ none
unfolding select_first
other_row id row h = ground arith

-- A new row, whose key no other has, with the status Created.
pub insert-Step :
    (id : Bytes) (row : RequestRow) (t t' : Tables)
    → exists_where (of_request row.request_id) t.requests ≡ false
    → row.status ≡ created
    → t'.requests ≡ t.requests ++ row ∷ []
    → t'.approvals ≡ t.approvals
    → Step (view id t) (view id t')
unfolding view
insert-Step id row t t' fresh new e a =
    let same_ballot = ap (ballot_of id) a in
    let rows = ap (select_first (of_request id)) e in
    elim (Bool-cases (str_eq row.request_id id)) [
      | inr other ↦ idle (
          view_eq
            (ap (Option.map brief) (
              rows
              ∙ select_first-append_others (of_request id) t.requests (row ∷ [])
                  (other_row id row other)))
            same_ballot)
      | inl same ↦
          let absent = select_first-fresh (of_request id) t.requests (
            subst (λ (j : Bytes). exists_where (of_request j) t.requests ≡ false)
              ((str_eq_iff row.request_id id).0 same) fresh) in
          submitted (brief row) (ap (Option.map brief) absent) new (
            view_eq
              (ap (Option.map brief) (
                rows
                ∙ select_first-append_new (of_request id) t.requests (row ∷ []) absent
                ∙ one_row id row same))
              same_ballot)
    ]

-- The update hits the row of the request.
pub view-hit :
    (id : Bytes) (hit : RequestRow → Bool) (next : Status) (r : RequestRow) (t t' : Tables)
    → t'.requests ≡ update_where hit (set_status next) t.requests
    → row_of id t ≡ some r
    → hit r ≡ true
    → (view id t').request ≡ some (record (brief r) { status = next })
unfolding view
view-hit id hit next r t t' e found h = rw (row_of-update id hit next t t' e, found, h) refl

-- The update hits rows of another request only.
pub view-miss :
    (id j : Bytes) (hit : RequestRow → Bool) (next : Status) (t t' : Tables)
    → t'.requests ≡ update_where hit (set_status next) t.requests
    → str_eq j id ≡ false
    → ((r : RequestRow) → hit r ≡ true → of_request j r ≡ true)
    → (view id t').request ≡ (view id t).request
view-miss id j hit next t t' e other hits = elim (view-update id hit next t t' e) [
  | inl same ↦ same
  | inr (r, found, h, w) ↦
      let mine =
        (str_eq_iff r.request_id id).0 (select_first-passes (of_request id) t.requests r found) in
      let its = (str_eq_iff r.request_id j).0 (hits r h) in
      true_and_false ((str_eq_iff j id).1 (sym its ∙ mine)) other
]

-- An update that leaves the brief of every row.
pub view-same_brief :
    (id : Bytes) (hit : RequestRow → Bool) (f : RequestRow → RequestRow) (t t' : Tables)
    → ((r : RequestRow) → of_request id (f r) ≡ of_request id r)
    → ((r : RequestRow) → brief (f r) ≡ brief r)
    → t'.requests ≡ update_where hit f t.requests
    → (view id t').request ≡ (view id t).request
unfolding view
view-same_brief id hit f t t' keep same e =
    ap (λ rows. Option.map brief (select_first (of_request id) rows)) e
    ∙ ap (Option.map brief) (select_first-update_where (of_request id) hit f keep t.requests)
    ∙ go (row_of id t)
  where
    go :
        (o : Option RequestRow)
        → Option.map brief (Option.map (λ r. if hit r then f r else r) o) ≡ Option.map brief o
    go none = refl
    go (some r) = elim (Bool-cases (hit r)) [ inl h ↦ rw h (ap some (same r)) | inr h ↦ rw h refl ]
