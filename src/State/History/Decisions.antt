-- ===== src/State/History/Decisions.antt =====
-- What one operation of the store can do to the decisions: they are append-only, at most one for
-- each request, and using one is final.
use shudo.Prelude.{
  ◌≡◌, refl, ap, ◌∙◌, inl, inr, false, none, List, [], ◌∷◌, ◌++◌, Bytes, arith, Bool-cases, ok,
}
use shudo.State.Sql.{exists_where}
use shudo.State.Tables.{Codec, ApprovalRow, Tables, approval_of}
use shudo.State.Requests.{transition, store_transition, expire_outstanding}
use shudo.State.Requests.Moves.{transition-Moved, transaction-cases}
use shudo.State.Requests.Creation.{create-cases}
use shudo.State.Approvals.{is_approved, consume, new_approval, accept_approval, begin_execution}
use shudo.State.Approvals.Inversion.{
  Accepted, accept_approval-cases, Begun, begin_execution-cases, finish_execution-cases,
}
use shudo.State.Output.{insert_chunk, count_output, append_output}
use shudo.State.Output.Appends.{Appended, append_output-cases}
use shudo.State.Retention.Deletion.{prune_delete-Pruned}
use shudo.State.Startup.{recover_interrupted, record_security_event}
use shudo.State.Startup.Migration.{migrate_local_only-cases}
use shudo.State.History.{
  StoreOp, creates, moves, expires, accepts, starts, finishes, appends, prunes, recovers, migrates,
  records, apply_op,
}

-- The ways in which an operation changes the table of decisions.
pub data Decided (old : List ApprovalRow) : List ApprovalRow → Type 0 where
  same : Decided old old
  added :
      (a : ApprovalRow) {new : List ApprovalRow}
      → exists_where (approval_of a.request_id) old ≡ false
      → a.consumed_at ≡ none
      → new ≡ old ++ a ∷ []
      → Decided old new
  used : (id now : Bytes) {new : List ApprovalRow} → new ≡ consume id now old → Decided old new

Decided-eq : (old : List ApprovalRow) {new : List ApprovalRow} → new ≡ old → Decided old new
Decided-eq old e = rw e same

approvals_eq : {t t' : Tables} → t' ≡ t → Decided t.approvals t'.approvals
approvals_eq {t} e = Decided-eq t.approvals (ap (λ (u : Tables). u.approvals) e)

accept-Decided :
    (c : Codec) (now : Bytes) {a : _} (t t' : Tables)
    → Accepted c now a t t'
    → Decided t.approvals t'.approvals
accept-Decided c now {a} t t' p =
    let w = p.moved.written in added (new_approval now p.raw a) p.undecided refl (ground arith)

begin-Decided :
    {c : Codec} {id now : Bytes} {expected : _} (t t' : Tables)
    → Begun c id expected now t t'
    → Decided t.approvals t'.approvals
begin-Decided {c} {id} {now} {expected} t t' p = elim (Bool-cases (is_approved expected)) [
  | inl consumes ↦ used id now (p.consumed consumes)
  | inr plain ↦ Decided-eq t.approvals (p.untouched plain)
]

pub insert_chunk-approvals :
    (k : _) (t : Tables) {t' : Tables} → insert_chunk k t ≡ ok t' → t'.approvals ≡ t.approvals
unfolding insert_chunk
insert_chunk-approvals k t h = ground arith

append-Decided :
    {io : _} {id stream bytes : Bytes} {sequence limit : _} (t t' : Tables)
    → Appended io id sequence stream bytes limit t t'
    → Decided t.approvals t'.approvals
unfolding count_output
append-Decided t t' p =
    let kept = insert_chunk-approvals _ t p.inserted in
    elim p.written [
      | inl (b, written) ↦ Decided-eq t.approvals (ap (λ (u : Tables). u.approvals) written ∙ kept)
      | inr (b, written) ↦ Decided-eq t.approvals (ap (λ (u : Tables). u.approvals) written ∙ kept)
    ]

-- Whatever operation of the store runs, the stored decisions stay as they are, or one is added for
-- a request that had none, or those of one request that are not used are marked as used.
pub apply_op-Decided :
    (c : Codec) (op : StoreOp) (t : Tables) → Decided t.approvals (apply_op c op t).approvals
unfolding apply_op store_transition expire_outstanding recover_interrupted record_security_event
apply_op-Decided c (creates d q hash) t = elim (create-cases c d q hash t) [
  | inl e ↦ approvals_eq e
  | inr p ↦ Decided-eq t.approvals (ap (λ (u : Tables). u.approvals) p.written)
]
apply_op-Decided c (moves io id next expected) t =
    elim (transaction-cases io (transition c id next expected) t) [
      | inl e ↦ approvals_eq e
      | inr (t', done, left) ↦ Decided-eq t.approvals (
          ap (λ (u : Tables). u.approvals)
            (left ∙ (transition-Moved c id next expected t done).written))
    ]
apply_op-Decided c (expires now) t = same
apply_op-Decided c (accepts io now a) t = elim (accept_approval-cases c io now a t) [
  | inl e ↦ approvals_eq e
  | inr p ↦ accept-Decided c now t (accept_approval c io now a t).1 p
]
apply_op-Decided c (starts io id expected now) t =
    elim (begin_execution-cases c io id expected now t) [
      | inl e ↦ approvals_eq e
      | inr p ↦ begin-Decided t (begin_execution c io id expected now t).1 p
    ]
apply_op-Decided c (finishes io id code signal now) t =
    elim (finish_execution-cases c io id code signal now t) [
      | inl e ↦ approvals_eq e
      | inr p ↦ Decided-eq t.approvals p.approvals
    ]
apply_op-Decided c (appends io id sequence stream bytes limit) t =
    elim (append_output-cases c io id sequence stream bytes limit t) [
      | inl e ↦ approvals_eq e
      | inr p ↦ append-Decided t (append_output c io id sequence stream bytes limit t).1 p
    ]
apply_op-Decided c (prunes io ids) t =
    Decided-eq t.approvals (prune_delete-Pruned [] io ids t).approvals
apply_op-Decided c (recovers now) t = same
apply_op-Decided c (migrates io now) t = elim (migrate_local_only-cases io now t) [
  | inl e ↦ approvals_eq e
  | inr p ↦ Decided-eq t.approvals p.approvals
]
apply_op-Decided c (records kind id hash detail now) t = same
