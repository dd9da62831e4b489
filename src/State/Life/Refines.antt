-- ===== src/State/Life/Refines.antt =====
-- Every operation of the store, as the service calls it, is a step of the machine for each request.
use shudo.Prelude.{
  ◌+◌, ◌≡◌, refl, ap, ◌∙◌, sym, ◌⊎◌, inl, inr, true, false, Option, List, Bytes, length, ltb, arith,
  &&-true, ℕ,
}
use mathlib.Core.Option
use mathlib.Core.Path.{subst}
use shudo.Model.{
  Status, ExecutionRequest, expired, failed, policy_rejected, executing, status_eq, status_eq_iff,
}
use shudo.State.Sql.{select_first, update_where}
use shudo.State.Tables.{Codec, RequestRow, Tables, of_request}
use shudo.State.Requests.{
  Disk, TxIo, can_move, is_outdated, expire_outstanding, transition, store_transition, new_request,
  create, has_status,
}
use shudo.State.Requests.Moves.{Moved, transition-Moved, transaction-cases}
use shudo.State.Requests.Creation.{Created, create-cases}
use shudo.State.Approvals.{finished_status, finish_execution}
use shudo.State.Approvals.Inversion.{
  accept_approval-cases, begin_execution-cases, Finished, finish_execution-cases,
}
use shudo.State.Output.{AppendIo, append_output, count_output}
use shudo.State.Output.Appends.{Appended, append_output-cases}
use shudo.State.Retention.{prune_delete}
use shudo.State.Retention.Deletion.{prune_delete-Pruned}
use shudo.State.Startup.{
  is_remote_pending, recover_interrupted, migrate_local_only, record_security_event,
}
use shudo.State.Startup.Migration.{Migrated, migrate_local_only-cases}
use shudo.State.History.{
  StoreOp, creates, moves, expires, accepts, starts, finishes, appends, prunes, recovers, migrates,
  records, apply_op,
}
use shudo.State.History.Steps.{insert_chunk-requests}
use shudo.State.History.Decisions.{insert_chunk-approvals}
use shudo.State.History.Fate.{can_move-expired, can_move-policy_rejected, can_move-failed}
use shudo.State.Life.{is_gated, Step, idle, removed, brief, ballot_of, view, IsServiceOp}
use shudo.State.Life.Views.{view_eq, view-same_brief, update-Step, insert-Step}
use shudo.State.Life.Gates.{accepted-Step, begun-Step}

has_status-edge :
    (j : Bytes) (current next : Status)
    → can_move current next ≡ true
    → (r : RequestRow) → has_status j current r ≡ true
    → can_move r.status next ≡ true
has_status-edge j current next edge r h =
    rw ((status_eq_iff r.status current).0 (&&-true (of_request j r) _ h).1) edge

module _ (c : Codec) (id : Bytes) (t : Tables) where
  -- An operation that wrote nothing, or did `P`.
  Step-cases :
      {P : Tables → Type 0} (t' : Tables)
      → (t' ≡ t) ⊎ P t'
      → ((u : Tables) → P u → Step (view id t) (view id u))
      → Step (view id t) (view id t')
  Step-cases t' (inl same) k = idle (ap (view id) same)
  Step-cases t' (inr p) k = k t' p

  -- A move to a status that is not gated, and other tables with the moved requests.
  Moved-Step :
      {j : Bytes} {next : Status} {expected : Option Status} (v t' : Tables)
      → is_gated next ≡ false
      → Moved j next expected t v
      → t'.requests ≡ v.requests
      → t'.approvals ≡ t.approvals
      → Step (view id t) (view id t')
  Moved-Step {j} {next} v t' plain m e a =
      update-Step id (has_status j m.current) next t t' plain
        (has_status-edge j m.current next m.edge) (e ∙ ap (λ (u : Tables). u.requests) m.written) a

  create-Step :
      (d : Disk) (q : ExecutionRequest) (hash : Bytes)
      → Step (view id t) (view id (create c d q hash t).1)
  create-Step d q hash = Step-cases _ (create-cases c d q hash t) λ u (p : Created c d q hash t u).
      insert-Step id (new_request q hash p.raw) t u p.fresh refl
        (ap (λ (v : Tables). v.requests) p.written) (ap (λ (v : Tables). v.approvals) p.written)

  transition-Step :
      (io : TxIo) (j : Bytes) (next : Status) (expected : Option Status)
      → is_gated next ≡ false
      → Step (view id t) (view id (store_transition c io j next expected t).1)
  unfolding store_transition
  transition-Step io j next expected plain =
      elim (transaction-cases io (transition c j next expected) t) [
        | inl same ↦ idle (ap (view id) same)
        | inr (t', done, left) ↦
            let m = transition-Moved c j next expected t done in
            subst (λ (u : Tables). Step (view id t) (view id u)) (sym left)
              (Moved-Step t' t' plain m refl (ap (λ (u : Tables). u.approvals) m.written))
      ]

  expire-Step : (now : Bytes) → Step (view id t) (view id (expire_outstanding c now t))
  unfolding expire_outstanding is_outdated is_gated
  expire-Step now =
      update-Step id (is_outdated c now) expired t (expire_outstanding c now t) refl
        (λ r hit. can_move-expired r.status (&&-true _ _ hit).0) refl refl

  recover-Step : (now : Bytes) → Step (view id t) (view id (recover_interrupted now t))
  unfolding recover_interrupted is_gated
  recover-Step now =
      update-Step id (λ r. status_eq r.status executing) failed t (recover_interrupted now t) refl
        (λ r hit. can_move-failed r.status hit) refl refl

  migrate-Step :
      (io : TxIo) (now : Bytes) → Step (view id t) (view id (migrate_local_only io now t).1)
  unfolding is_remote_pending is_gated
  migrate-Step io now = Step-cases _ (migrate_local_only-cases io now t) λ u (p : Migrated t u).
      update-Step id is_remote_pending policy_rejected t u refl
        (λ r hit. can_move-policy_rejected r.status hit) p.requests p.approvals

  finished-plain : (code : Option ℕ) → is_gated (finished_status code) ≡ false
  unfolding finished_status is_gated
  finished-plain code = ground arith

  finish-Step :
      (io : TxIo) (j : Bytes) (code : Option ℕ) (signal now : Bytes)
      → Step (view id t) (view id (finish_execution c io j code signal now t).1)
  finish-Step io j code signal now =
      Step-cases _ (finish_execution-cases c io j code signal now t)
        λ u (p : Finished c j code signal now t u).
          Moved-Step p.middle u (finished-plain code) p.moved p.requests p.approvals

  prune-Step : (io : TxIo) (ids : List Bytes) → Step (view id t) (view id (prune_delete io ids t).1)
  unfolding view ballot_of
  prune-Step io ids =
      let p = prune_delete-Pruned id io ids t in
      let same_ballot = ap (ballot_of id) p.approvals in
      elim p.row [
        | inl same ↦ idle (view_eq (ap (Option.map brief) same) same_ballot)
        | inr (gone, undecided) ↦
            removed (rw undecided refl) (view_eq (ap (Option.map brief) gone) same_ballot)
      ]

  append-Step :
      (io : AppendIo) (j : Bytes) (sequence : ℕ) (stream bytes : Bytes) (limit : ℕ)
      → Step (view id t) (view id (append_output c io j sequence stream bytes limit t).1)
  unfolding count_output view
  append-Step io j sequence stream bytes limit =
      Step-cases _ (append_output-cases c io j sequence stream bytes limit t)
        λ u (p : Appended io j sequence stream bytes limit t u).
          let kept = insert_chunk-requests _ t p.inserted in
          let decided = insert_chunk-approvals _ t p.inserted in
          elim p.written [
            | inl (b, written) ↦ idle (
                view_eq
                  (view-same_brief id (of_request j)
                    (λ s. record s {
                      output_bytes = s.output_bytes + length p.stored;
                      output_truncated = ltb (length p.stored) (length bytes);
                    })
                    t u (λ s. refl) (λ s. refl)
                    (ap (λ (v : Tables). v.requests) written
                      ∙ ap (update_where (of_request j) _) kept))
                  (ap (ballot_of id) (ap (λ (v : Tables). v.approvals) written ∙ decided)))
            | inr (b, written) ↦ idle (
                view_eq
                  (ap (λ rows. Option.map brief (select_first (of_request id) rows))
                    (ap (λ (v : Tables). v.requests) written ∙ kept))
                  (ap (ballot_of id) (ap (λ (v : Tables). v.approvals) written ∙ decided)))
          ]

-- Whatever operation of the store the service calls, a request either looks as before, or it takes
-- one step of the machine: it is submitted, moved along an edge to a status that is not gated,
-- decided while it waits and its ballot is blank, begun while it is approved and its ballot is cast,
-- or removed while its ballot is blank.
pub apply_op-Step :
    (c : Codec) (op : StoreOp) (id : Bytes) (t : Tables)
    → IsServiceOp op
    → Step (view id t) (view id (apply_op c op t))
unfolding apply_op record_security_event view
apply_op-Step c (creates d q hash) id t s = create-Step c id t d q hash
apply_op-Step c (moves io j next expected) id t s = transition-Step c id t io j next expected s
apply_op-Step c (expires now) id t s = expire-Step c id t now
apply_op-Step c (accepts io now a) id t s =
    Step-cases c id t _ (accept_approval-cases c io now a t) (accepted-Step c now a id t)
apply_op-Step c (starts io j expected now) id t s =
    Step-cases c id t _ (begin_execution-cases c io j expected now t)
      (λ u. begun-Step c j expected now id t u s)
apply_op-Step c (finishes io j code signal now) id t s = finish-Step c id t io j code signal now
apply_op-Step c (appends io j sequence stream bytes limit) id t s =
    append-Step c id t io j sequence stream bytes limit
apply_op-Step c (prunes io ids) id t s = prune-Step c id t io ids
apply_op-Step c (recovers now) id t s = recover-Step c id t now
apply_op-Step c (migrates io now) id t s = migrate-Step c id t io now
apply_op-Step c (records kind j hash detail now) id t s = idle refl
