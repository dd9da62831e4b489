-- ===== src/State/Requests/Succeeds.antt =====
-- When `transition` succeeds, and what the request is then.
use shudo.Prelude.{
  ◌≡◌, refl, ap, ◌∙◌, inl, inr, true, Option, some, List, [], ◌∷◌, Bytes, arith, Bool-cases, ok,
  Result, ◌>>=◌,
}
use shudo.Model.{Status, ExecutionRequest, status_eq, status_eq_iff}
use shudo.State.Sql.{
  select_first, count_where, select_first-update_where, count_where-update_where,
  select_first-passes,
}
use shudo.State.Tables.{Codec, RequestRow, Tables, of_request, row_of, StoredRequest, StoreError}
use shudo.State.Requests.{
  can_move, stored_request, get_from, has_status, move_row, unexpected, transition, TxIo,
  transaction, move_found, update_status, end_transaction,
}

-- The one row of a request, its status and its content.
pub record HasRow (c : Codec) (id : Bytes) (s : Status) (q : ExecutionRequest) (r : RequestRow)
    (t : Tables) : Type 0 where
  pub found : row_of id t ≡ some r
  pub single : count_where (of_request id) t.requests ≡ 1
  pub status : r.status ≡ s
  pub content : c.unmarshal_request r.request_json ≡ some q

count-none :
    (id : Bytes) (s : Status) (rows : List RequestRow)
    → count_where (of_request id) rows ≡ 0
    → count_where (has_status id s) rows ≡ 0
unfolding count_where
count-none id s [] h = refl
count-none id s (r ∷ rows) h = ground (arith, count-none id s rows)

count-single :
    (id : Bytes) (s : Status) (r : RequestRow) (rows : List RequestRow)
    → count_where (of_request id) rows ≡ 1
    → select_first (of_request id) rows ≡ some r
    → status_eq r.status s ≡ true
    → count_where (has_status id s) rows ≡ 1
unfolding count_where select_first
count-single id s r [] n f h = cc
count-single id s r (x ∷ rows) n f h = elim (Bool-cases (of_request id x)) [
  | inl own ↦
      let rest : count_where (of_request id) rows ≡ 0 = ground arith in
      let same : x ≡ r = ground arith in
      let none_left = count-none id s rows rest in
      let its : status_eq x.status s ≡ true = rw same h in rw (own, its, none_left) refl
  | inr other ↦
      let rest = count-single id s r rows (ground arith) (ground arith) h in rw (other, rest) refl
]

move_found-ok :
    (id : Bytes) (s next : Status) (x : StoredRequest) (t : Tables)
    → x.status ≡ s
    → can_move s next ≡ true
    → count_where (has_status id s) t.requests ≡ 1
    → move_found id next (some s) (some x) t ≡ ok (move_row id next s t)
unfolding move_found unexpected update_status
move_found-ok id s next x t e edge one =
    let own = (status_eq_iff x.status s).1 e in
    let edge' : can_move x.status next ≡ true = rw e edge in
    let one' : count_where (has_status id x.status) t.requests ≡ 1 = rw e one in
    rw (own, edge', one') (ap (λ (y : Status). ok (move_row id next y t)) e)

moved-found :
    (id : Bytes) (s next : Status) (r : RequestRow) (t : Tables)
    → row_of id t ≡ some r
    → r.status ≡ s
    → row_of id (move_row id next s t) ≡ some (record r { status = next })
moved-found id s next r t found e =
    let own = select_first-passes (of_request id) t.requests r found in
    let its = (status_eq_iff r.status s).1 e in
    let hit : has_status id s r ≡ true = rw (own, its) refl in
    select_first-update_where (of_request id) (has_status id s) (λ x. record x { status = next })
      (λ x. refl) t.requests
    ∙ rw (found, hit) refl

module _ (c : Codec) (id : Bytes) (s : Status) (q : ExecutionRequest) (r : RequestRow) (t : Tables)
    (h : HasRow c id s q r t) where
  pub get_from-found : get_from c t id ≡ ok (some (stored_request r q))
  unfolding get_from
  get_from-found = rw (get_from, h.found, h.content) refl

  -- An edge that is expected can be taken.
  pub transition-ok :
      (next : Status)
      → can_move s next ≡ true
      → transition c id next (some s) t ≡ ok (move_row id next s t)
  unfolding transition unexpected
  transition-ok next edge =
      let own = (status_eq_iff r.status s).1 h.status in
      ap
        (λ (x : Result StoreError (Option StoredRequest)).
          x >>= λ found. move_found id next (some s) found t)
        get_from-found
      ∙ move_found-ok id s next (stored_request r q) t h.status edge
          (count-single id s r t.requests h.single h.found own)

  pub move_row-HasRow :
      (next : Status) → HasRow c id next q (record r { status = next }) (move_row id next s t)
  move_row-HasRow next = record {
    found = moved-found id s next r t h.found h.status;
    single =
        count_where-update_where (of_request id) (has_status id s) (λ x. record x { status = next })
          (λ x. refl) t.requests
        ∙ h.single;
    status = refl;
    content = h.content;
  }

-- An operation that succeeds, in a transaction that begins and commits.
pub committed :
    (io : TxIo) (operation : Tables → Result StoreError Tables) (t t' : Tables)
    → io.begins ≡ true
    → io.commits ≡ true
    → operation t ≡ ok t'
    → transaction io operation t ≡ (ok tt, t')
unfolding transaction end_transaction
committed io operation t t' b k e = rw (b, e, k) refl

-- The row depends on the requests only.
pub same-HasRow :
    {c : Codec} {id : Bytes} {s : Status} {q : ExecutionRequest} {r : RequestRow} (t t' : Tables)
    → t'.requests ≡ t.requests
    → HasRow c id s q r t
    → HasRow c id s q r t'
same-HasRow {c} {id} t t' e h = record {
  found = ap (select_first (of_request id)) e ∙ h.found;
  single = ap (count_where (of_request id)) e ∙ h.single;
  status = h.status;
  content = h.content;
}
