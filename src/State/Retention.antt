-- ===== src/State/Retention.antt =====
-- `PruneUnapproved`: a query for the finished requests without an approval, and later, under the
-- lock, a transaction that deletes what the query found.
pub mod Deletion
use shudo.Prelude.{
  ℕ, ◌+◌, Bool, true, not, ◌&&◌, ◌||◌, Option, none, some, List, [], ◌∷◌, Bytes, if◌then◌else◌, ltb,
  leb, Result, ok, err, ◌>>=◌, ℤ, pos, negsuc,
}
use shudo.Model.{policy_rejected, denied, expired, cancelled, failed, succeeded, status_in}
use shudo.State.Sql.{select_where, exists_where, delete_where, order_desc}
use shudo.State.Tables.{
  Codec, RequestRow, Tables, StoreError, invalid_retention, foreign_key_violation, of_request,
  approval_of, execution_of, chunk_of,
}
use shudo.State.Requests.{TxIo, Outcome, transaction}

unfoldable pub is_prunable : Tables → RequestRow → Bool
unfolding status_in
is_prunable t r =
    status_in r.status (policy_rejected ∷ denied ∷ expired ∷ cancelled ∷ failed ∷ succeeded ∷ [])
    && not (exists_where (approval_of r.request_id) t.approvals)

-- A creation time that does not parse counts as old.
is_older : Option ℕ → ℕ → Bool
is_older none older_than = true
is_older (some created) older_than = ltb created older_than

unfoldable pub prune_scan : Codec → ℕ → ℕ → ℕ → List RequestRow → List Bytes
unfolding is_older
prune_scan c older_than retain index [] = []
prune_scan c older_than retain index (r ∷ rows) =
    let rest = prune_scan c older_than retain (index + 1) rows in
    if leb retain index || is_older (c.parse_time r.created_at) older_than
    then r.request_id ∷ rest
    else rest

unfoldable pub prune_ids : Codec → ℕ → ℕ → Tables → List Bytes
unfolding prune_scan is_prunable
prune_ids c older_than retain t =
    prune_scan c older_than retain 0
      (order_desc (λ (r : RequestRow). r.created_at) (select_where (is_prunable t) t.requests))

-- The row of a request cannot go while an approval refers to it; its output and its execution,
-- which refer to it too, go first.
unfoldable pub delete_one : Bytes → Tables → Result StoreError Tables
delete_one id t =
    if exists_where (of_request id) t.requests && exists_where (approval_of id) t.approvals
    then err foreign_key_violation
    else ok (record t {
      output_chunks = delete_where (chunk_of id) t.output_chunks;
      executions = delete_where (execution_of id) t.executions;
      requests = delete_where (of_request id) t.requests;
    })

unfoldable pub delete_all : List Bytes → Tables → Result StoreError Tables
unfolding delete_one
delete_all [] t = ok t
delete_all (id ∷ ids) t = do rest ← delete_one id t; delete_all ids rest

-- The second part, on the tables that it finds: they may have changed since the query.
unfoldable pub prune_delete : TxIo → List Bytes → Tables → Outcome
unfolding delete_all
prune_delete io [] t = (ok tt, t)
prune_delete io (id ∷ ids) t = transaction io (delete_all (id ∷ ids)) t

unfoldable pub prune_unapproved : Codec → TxIo → ℕ → ℤ → Tables → Outcome
unfolding prune_ids prune_delete
prune_unapproved c io older_than (negsuc n) t = (err invalid_retention, t)
prune_unapproved c io older_than (pos retain) t =
    prune_delete io (prune_ids c older_than retain t) t
