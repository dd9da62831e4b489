-- ===== src/State/History/Steps.antt =====
-- Every operation of the store moves a request along the table of transitions at most, and keeps
-- the rest of its row; only the deletion of an undecided request removes it.
use shudo.Prelude.{
  ◌+◌, ◌≡◌, refl, ap, ◌∙◌, ◌⊎◌, inl, inr, Bool, Option, some, List, [], ◌∷◌, ◌++◌, Bytes, length,
  ltb, ℕ, &&-true, arith, ok,
}
use shudo.Model.{
  Status, ExecutionRequest, Approval, expired, failed, policy_rejected, status_eq, executing,
}
use shudo.State.Sql.{select_first, update_where, select_first-append}
use shudo.State.Tables.{Codec, ChunkRow, RequestRow, Tables, of_request, row_of}
use shudo.State.Requests.{
  Disk, TxIo, is_outdated, expire_outstanding, transition, transaction, store_transition,
  new_request, create,
}
use shudo.State.Requests.Moves.{Moved, transition-Moved, transaction-cases}
use shudo.State.Requests.Creation.{Created, create-cases}
use shudo.State.Approvals.Inversion.{
  Accepted, accept_approval-cases, Begun, begin_execution-cases, Finished, finish_execution-cases,
}
use shudo.State.Approvals.{new_approval, accept_approval, begin_execution, finish_execution}
use shudo.State.Retention.{prune_delete}
use shudo.State.Output.{AppendIo, insert_chunk, count_output, append_output}
use shudo.State.Output.Appends.{Appended, append_output-cases}
use shudo.State.Retention.Deletion.{prune_delete-Pruned}
use shudo.State.Startup.{
  is_remote_pending, recover_interrupted, migrate_local_only, record_security_event,
}
use shudo.State.Startup.Migration.{Migrated, migrate_local_only-cases}
use shudo.State.History.{
  StoreOp, creates, moves, expires, accepts, starts, finishes, appends, prunes, recovers, migrates,
  records, apply_op,
}
use shudo.State.History.Fate.{
  Follows, Follows-refl, Follows-status, Kept, Fate, Kept-same, Kept-update, Kept-move_row,
  can_move-expired, can_move-policy_rejected, can_move-failed,
}

-- The row that `AppendOutput` writes.
counted :
    (r : RequestRow) (n : ℕ) (truncated : Bool)
    → Follows r (record r { output_bytes = r.output_bytes + n; output_truncated = truncated })
counted r n truncated = record {
  same_id = refl;
  same_hash = refl;
  same_json = refl;
  same_created = refl;
  same_expires = refl;
  status_moves = inl refl;
  bytes_grow = omega arith;
}

pub insert_chunk-requests :
    (k : ChunkRow) (t : Tables) {t' : Tables} → insert_chunk k t ≡ ok t' → t'.requests ≡ t.requests
unfolding insert_chunk
insert_chunk-requests k t h = ground arith

module _ (c : Codec) (id : Bytes) (r : RequestRow) (t : Tables) (found : row_of id t ≡ some r) where
  -- An operation that wrote nothing, or did `P`.
  Kept-cases :
      {P : Tables → Type 0} (t' : Tables)
      → (t' ≡ t) ⊎ P t'
      → ((u : Tables) → P u → Kept id r u.requests)
      → Kept id r t'.requests
  Kept-cases t' (inl same) k = Kept-same id r (ap (λ (u : Tables). u.requests) same) found
  Kept-cases t' (inr p) k = k t' p

  -- A move in tables with the same requests, and other tables with the moved ones.
  Kept-Moved :
      {j : Bytes} {next : Status} {expected : Option Status} (u v t' : Tables)
      → u.requests ≡ t.requests
      → Moved j next expected u v
      → t'.requests ≡ v.requests
      → Kept id r t'.requests
  Kept-Moved {j} {next} u v t' e m e' =
      let (r', there, follows) =
        Kept-move_row id j next m.current r u m.edge m.written
          (ap (select_first (of_request id)) e ∙ found) in
      (r', ap (select_first (of_request id)) e' ∙ there, follows)

  create-Kept :
      (d : Disk) (q : ExecutionRequest) (hash : Bytes) → Kept id r (create c d q hash t).1.requests
  create-Kept d q hash = Kept-cases _ (create-cases c d q hash t) λ u (p : Created c d q hash t u).
      (
        r,
        ap (row_of id) p.written
            ∙ select_first-append (of_request id) t.requests (new_request q hash p.raw ∷ []) r
                found,
        Follows-refl r,
      )

  transition-Kept :
      (io : TxIo) (j : Bytes) (next : Status) (expected : Option Status)
      → Kept id r (store_transition c io j next expected t).1.requests
  unfolding store_transition
  transition-Kept io j next expected =
      elim (transaction-cases io (transition c j next expected) t) [
        | inl same ↦ Kept-same id r (ap (λ (u : Tables). u.requests) same) found
        | inr (t', done, left) ↦
            Kept-Moved t t' (transaction io (transition c j next expected) t).1 refl
              (transition-Moved c j next expected t done) (ap (λ (u : Tables). u.requests) left)
      ]

  expire-Kept : (now : Bytes) → Kept id r (expire_outstanding c now t).requests
  unfolding expire_outstanding is_outdated
  expire-Kept now =
      Kept-update id (is_outdated c now) (λ s. record s { status = expired }) (λ s. refl)
        (λ s hit. Follows-status s expired (can_move-expired s.status (&&-true _ _ hit).0)) r
        t.requests refl found

  accept-Kept :
      (io : TxIo) (now : Bytes) (a : Approval) → Kept id r (accept_approval c io now a t).1.requests
  accept-Kept io now a =
      Kept-cases _ (accept_approval-cases c io now a t) λ u (p : Accepted c now a t u).
        Kept-Moved (record t { approvals = t.approvals ++ new_approval now p.raw a ∷ [] }) u u refl
          p.moved refl

  begin-Kept :
      (io : TxIo) (j : Bytes) (expected : Option Status) (now : Bytes)
      → Kept id r (begin_execution c io j expected now t).1.requests
  begin-Kept io j expected now =
      Kept-cases _ (begin_execution-cases c io j expected now t)
        λ u (p : Begun c j expected now t u). Kept-Moved t p.middle u refl p.moved p.requests

  finish-Kept :
      (io : TxIo) (j : Bytes) (code : Option ℕ) (signal now : Bytes)
      → Kept id r (finish_execution c io j code signal now t).1.requests
  finish-Kept io j code signal now =
      Kept-cases _ (finish_execution-cases c io j code signal now t)
        λ u (p : Finished c j code signal now t u). Kept-Moved t p.middle u refl p.moved p.requests

  append-Kept :
      (io : AppendIo) (j : Bytes) (sequence : ℕ) (stream bytes : Bytes) (limit : ℕ)
      → Kept id r (append_output c io j sequence stream bytes limit t).1.requests
  unfolding count_output
  append-Kept io j sequence stream bytes limit =
      Kept-cases _ (append_output-cases c io j sequence stream bytes limit t)
        λ u (p : Appended io j sequence stream bytes limit t u).
          let kept = insert_chunk-requests _ t p.inserted in
          elim p.written [
            | inl (b, written) ↦
                Kept-update id (of_request j)
                  (λ s. record s {
                    output_bytes = s.output_bytes + length p.stored;
                    output_truncated = ltb (length p.stored) (length bytes);
                  })
                  (λ s. refl) (λ s hit. counted s (length p.stored) _) r t.requests
                  (ap (λ (v : Tables). v.requests) written
                    ∙ ap (update_where (of_request j) _) kept)
                  found
            | inr (b, written) ↦
                Kept-same id r (ap (λ (v : Tables). v.requests) written ∙ kept) found
          ]

  recover-Kept : (now : Bytes) → Kept id r (recover_interrupted now t).requests
  unfolding recover_interrupted
  recover-Kept now =
      Kept-update id (λ s. status_eq s.status executing) (λ s. record s { status = failed })
        (λ s. refl) (λ s hit. Follows-status s failed (can_move-failed s.status hit)) r t.requests
        refl found

  migrate-Kept : (io : TxIo) (now : Bytes) → Kept id r (migrate_local_only io now t).1.requests
  unfolding is_remote_pending
  migrate-Kept io now = Kept-cases _ (migrate_local_only-cases io now t) λ u (p : Migrated t u).
      Kept-update id is_remote_pending (λ s. record s { status = policy_rejected }) (λ s. refl)
        (λ s hit. Follows-status s policy_rejected (can_move-policy_rejected s.status hit)) r
        t.requests p.requests found

  prune-Fate : (io : TxIo) (ids : List Bytes) → Fate id r t (prune_delete io ids t).1
  prune-Fate io ids = elim (prune_delete-Pruned id io ids t).row [
    | inl same ↦ inl (r, same ∙ found, Follows-refl r)
    | inr gone ↦ inr gone
  ]

-- Whatever operation of the store runs, a request that is there keeps its identifier, hash,
-- content and times; its status stays or moves along one edge of the table of transitions; its
-- output count does not fall. Or it is deleted, and then it had no approval.
pub apply_op-Fate :
    (c : Codec) (op : StoreOp) (id : Bytes) (r : RequestRow) (t : Tables)
    → row_of id t ≡ some r
    → Fate id r t (apply_op c op t)
unfolding apply_op record_security_event
apply_op-Fate c (creates d q hash) id r t found = inl (create-Kept c id r t found d q hash)
apply_op-Fate c (moves io j next expected) id r t found =
    inl (transition-Kept c id r t found io j next expected)
apply_op-Fate c (expires now) id r t found = inl (expire-Kept c id r t found now)
apply_op-Fate c (accepts io now a) id r t found = inl (accept-Kept c id r t found io now a)
apply_op-Fate c (starts io j expected now) id r t found =
    inl (begin-Kept c id r t found io j expected now)
apply_op-Fate c (finishes io j code signal now) id r t found =
    inl (finish-Kept c id r t found io j code signal now)
apply_op-Fate c (appends io j sequence stream bytes limit) id r t found =
    inl (append-Kept c id r t found io j sequence stream bytes limit)
apply_op-Fate c (prunes io ids) id r t found = prune-Fate c id r t found io ids
apply_op-Fate c (recovers now) id r t found = inl (recover-Kept c id r t found now)
apply_op-Fate c (migrates io now) id r t found = inl (migrate-Kept c id r t found io now)
apply_op-Fate c (records kind j hash detail now) id r t found =
    inl (Kept-same id r {rows = t.requests} refl found)
