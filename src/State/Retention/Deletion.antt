-- ===== src/State/Retention/Deletion.antt =====
-- What the deletion of `PruneUnapproved` leaves.
use shudo.Prelude.{
  ◌≡◌, refl, sym, ap, ◌∙◌, ◌⊎◌, inl, inr, true, false, none, List, [], ◌∷◌, Bytes, arith,
  Bool-cases, Option-cases, str_eq, str_eq_iff, ok, >>=-eq-ok,
}
use mathlib.Core.Path.{subst}
use shudo.State.Sql.{
  exists_where, select_first-delete_where, select_first-exists, select_first-delete_self,
  select_first-delete_none,
}
use shudo.State.Tables.{RequestRow, Tables, of_request, approval_of, row_of}
use shudo.State.Requests.{TxIo}
use shudo.State.Requests.Moves.{transaction-cases}
use shudo.State.Retention.{delete_one, delete_all, prune_delete}

-- The row is as it was, or it is gone and the request had no approval; approvals stay.
pub record Pruned (id : Bytes) (t t' : Tables) : Type 0 where
  pub row :
      (row_of id t' ≡ row_of id t)
      ⊎ ((row_of id t' ≡ none) × (exists_where (approval_of id) t.approvals ≡ false))
  pub approvals : t'.approvals ≡ t.approvals

-- The rows of another request are other rows.
other_request :
    (id j : Bytes)
    → str_eq j id ≡ false
    → (r : RequestRow) → of_request id r ≡ true
    → of_request j r ≡ false
other_request id j ne r h =
    ground (arith, str_eq_iff r.request_id id, str_eq_iff r.request_id j, str_eq_iff j id)

deleted :
    (id : Bytes) (t : Tables) {t' : Tables}
    → delete_one id t ≡ ok t'
    → (row_of id t' ≡ row_of id t)
      ⊎ ((row_of id t' ≡ none) × (exists_where (approval_of id) t.approvals ≡ false))
unfolding delete_one
deleted id t h = elim (Option-cases (row_of id t)) [
  | inl absent ↦
      inl (ground (arith, select_first-delete_none (of_request id) (of_request id) t.requests))
  | inr (r, found) ↦
      let there = select_first-exists (of_request id) t.requests r found in
      inr (ground (arith, select_first-delete_self (of_request id) t.requests), ground arith)
]

deleted_other :
    (id j : Bytes) (t : Tables) {t' : Tables}
    → ((r : RequestRow) → of_request id r ≡ true → of_request j r ≡ false)
    → delete_one j t ≡ ok t'
    → row_of id t' ≡ row_of id t
unfolding delete_one
deleted_other id j t other h =
    ground (arith, select_first-delete_where (of_request id) (of_request j) other t.requests)

delete_one-Pruned :
    (id j : Bytes) (t : Tables) {t' : Tables} → delete_one j t ≡ ok t' → Pruned id t t'
unfolding delete_one
delete_one-Pruned id j t {t'} h = elim (Bool-cases (str_eq j id)) [
  | inl same ↦
      let e = (str_eq_iff j id).0 same in
      record {
        row = deleted id t (subst (λ (k : Bytes). delete_one k t ≡ ok t') e h);
        approvals = ground arith;
      }
  | inr other ↦ record {
    row = inl (deleted_other id j t (other_request id j other) h);
    approvals = ground arith;
  }
]

Pruned-refl : (id : Bytes) (t : Tables) → Pruned id t t
Pruned-refl id t = record { row = inl refl; approvals = refl }

Pruned-trans : (id : Bytes) (t u v : Tables) → Pruned id t u → Pruned id u v → Pruned id t v
Pruned-trans id t u v p q = record {
  row = ground (arith, p.row, q.row, ap (exists_where (approval_of id)) p.approvals);
  approvals = q.approvals ∙ p.approvals;
}

delete_all-Pruned :
    (id : Bytes) (ids : List Bytes) (t : Tables) {t' : Tables}
    → delete_all ids t ≡ ok t'
    → Pruned id t t'
unfolding delete_all
delete_all-Pruned id [] t {t'} h = subst (Pruned id t) (ground arith) (Pruned-refl id t)
delete_all-Pruned id (j ∷ ids) t {t'} h =
    let (u, p, q) = >>=-eq-ok (delete_one j t) (delete_all ids) h in
    Pruned-trans id t u t' (delete_one-Pruned id j t p) (delete_all-Pruned id ids u q)

pub prune_delete-Pruned :
    (id : Bytes) (io : TxIo) (ids : List Bytes) (t : Tables) → Pruned id t (prune_delete io ids t).1
unfolding prune_delete
prune_delete-Pruned id io [] t = Pruned-refl id t
prune_delete-Pruned id io (j ∷ ids) t = elim (transaction-cases io (delete_all (j ∷ ids)) t) [
  | inl same ↦ subst (Pruned id t) (sym same) (Pruned-refl id t)
  | inr (t', done, left) ↦ subst (Pruned id t) (sym left) (delete_all-Pruned id (j ∷ ids) t done)
]
