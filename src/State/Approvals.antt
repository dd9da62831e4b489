-- ===== src/State/Approvals.antt =====
-- The decisions and the executions: `ApprovalFor`, `AcceptApproval`, `BeginExecution`,
-- `FinishExecution` and `Execution`.
pub mod Inversion
pub mod Succeeds
use shudo.Prelude.{
  ℕ, Bool, true, false, not, ◌&&◌, ◌||◌, Option, none, some, List, [], ◌∷◌, ◌++◌, Bytes, codes,
  if◌then◌else◌, ◌==◌, str_eq, is_empty, Result, ok, err, ◌>>=◌,
}
use shudo.Model.{
  Status, waiting, approved, denied, executing, succeeded, failed, status_eq, Approval,
}
use shudo.State.Sql.{select_first, count_where, exists_where, update_where}
use shudo.State.Tables.{
  Codec, ApprovalRow, ExecutionRow, Tables, ExecutionResult, StoreError, invalid_approval,
  not_consumed_once, bad_json, unique_violation, foreign_key_violation, of_request, approval_of,
  execution_of,
}
use shudo.State.Requests.{TxIo, Outcome, transaction, transition}

unfoldable pub decode_approval : Codec → Option ApprovalRow → Result StoreError (Option Approval)
decode_approval c none = ok none
decode_approval c (some a) = elim (c.unmarshal_approval a.approval_json) [
  | none ↦ err bad_json
  | some x ↦ ok (some x)
]

unfoldable pub approval_for : Codec → Tables → Bytes → Result StoreError (Option Approval)
unfolding decode_approval
approval_for c t id = decode_approval c (select_first (approval_of id) t.approvals)

abbrev pub approve_text : Bytes
approve_text = codes "approve"

abbrev pub deny_text : Bytes
deny_text = codes "deny"

unfoldable pub is_valid_approval : Approval → Bool
unfolding is_empty
is_valid_approval a = not (
    not (a.version == 1)
    || is_empty a.approval_id
    || is_empty a.request_id
    || is_empty a.request_hash
    || is_empty a.approved_by.subject
    || (not (str_eq a.decision approve_text) && not (str_eq a.decision deny_text)))

abbrev pub new_approval : Bytes → Bytes → Approval → ApprovalRow
new_approval now raw a = record {
  approval_id = a.approval_id;
  request_id = a.request_id;
  approval_json = raw;
  received_at = now;
  consumed_at = none;
}

-- `INSERT INTO approvals`: both identifiers are unique, and the request must be there.
insert_approval : ApprovalRow → Tables → Result StoreError Tables
insert_approval a t =
    if exists_where (λ b. str_eq b.approval_id a.approval_id) t.approvals
      || exists_where (approval_of a.request_id) t.approvals
    then err unique_violation
    else if not (exists_where (of_request a.request_id) t.requests)
    then err foreign_key_violation
    else ok (record t { approvals = t.approvals ++ a ∷ [] })

unfoldable pub decided_status : Approval → Status
decided_status a = if str_eq a.decision approve_text then approved else denied

accept_in : Codec → Bytes → Bytes → Approval → Tables → Result StoreError Tables
unfolding insert_approval decided_status
accept_in c now raw a t = do
  inserted ← insert_approval (new_approval now raw a) t
  transition c a.request_id (decided_status a) (some waiting) inserted

accept_raw : Codec → TxIo → Bytes → Approval → Option Bytes → Tables → Outcome
unfolding accept_in
accept_raw c io now a none t = (err bad_json, t)
accept_raw c io now a (some raw) t = transaction io (accept_in c now raw a) t

-- `AcceptApprovalContext`; a context that is done shows in `TxIo`.
unfoldable pub accept_approval : Codec → TxIo → Bytes → Approval → Tables → Outcome
unfolding accept_raw
accept_approval c io now a t =
    if not (is_valid_approval a)
    then (err invalid_approval, t)
    else accept_raw c io now a (c.marshal_approval a) t

abbrev pub new_execution : Bytes → Bytes → ExecutionRow
new_execution id now = record {
  request_id = id;
  started_at = now;
  finished_at = none;
  exit_code = none;
  signal = none;
}

insert_execution : ExecutionRow → Tables → Result StoreError Tables
insert_execution e t =
    if exists_where (execution_of e.request_id) t.executions
    then err unique_violation
    else if not (exists_where (of_request e.request_id) t.requests)
    then err foreign_key_violation
    else ok (record t { executions = t.executions ++ e ∷ [] })

-- An approval of the request that no execution has used.
unfoldable pub is_unconsumed : Bytes → ApprovalRow → Bool
is_unconsumed id a = approval_of id a && elim a.consumed_at [ none ↦ true | some _ ↦ false ]

-- `UPDATE approvals SET consumed_at=now WHERE request_id=id AND consumed_at IS NULL`
abbrev pub consume : Bytes → Bytes → List ApprovalRow → List ApprovalRow
consume id now approvals =
    update_where (is_unconsumed id) (λ a. record a { consumed_at = some now }) approvals

consume_approval : Bytes → Bytes → Tables → Result StoreError Tables
unfolding is_unconsumed
consume_approval id now t =
    if count_where (is_unconsumed id) t.approvals == 1
    then ok (record t { approvals = consume id now t.approvals })
    else err not_consumed_once

unfoldable pub is_approved : Option Status → Bool
is_approved none = false
is_approved (some s) = status_eq s approved

begin_in : Codec → Bytes → Option Status → Bytes → Tables → Result StoreError Tables
unfolding insert_execution consume_approval is_approved
begin_in c id expected now t = do
  moved ← transition c id executing expected t
  started ← insert_execution (new_execution id now) moved
  if is_approved expected then consume_approval id now started else ok started

unfoldable pub begin_execution : Codec → TxIo → Bytes → Option Status → Bytes → Tables → Outcome
unfolding begin_in
begin_execution c io id expected now t = transaction io (begin_in c id expected now) t

-- The empty text is stored as NULL.
unfoldable pub nullable : Bytes → Option Bytes
nullable [] = none
nullable (c ∷ s) = some (c ∷ s)

unfoldable pub finished_status : Option ℕ → Status
finished_status none = failed
finished_status (some code) = if code == 0 then succeeded else failed

finish_in : Codec → Bytes → Option ℕ → Bytes → Bytes → Tables → Result StoreError Tables
unfolding finished_status nullable
finish_in c id exit_code signal now t = do
  moved ← transition c id (finished_status exit_code) (some executing) t
  ok (record moved {
    executions =
        update_where (execution_of id)
          (λ e. record e {
            finished_at = some now;
            exit_code = exit_code;
            signal = nullable signal;
          })
          moved.executions;
  })

unfoldable pub finish_execution : Codec → TxIo → Bytes → Option ℕ → Bytes → Bytes → Tables → Outcome
unfolding finish_in
finish_execution c io id exit_code signal now t =
    transaction io (finish_in c id exit_code signal now) t

text_or_empty : Option Bytes → Bytes
text_or_empty none = []
text_or_empty (some s) = s

execution_result : Option ExecutionRow → Option ExecutionResult
unfolding text_or_empty
execution_result none = none
execution_result (some e) = some (record {
  exit_code = e.exit_code;
  signal = text_or_empty e.signal;
  started_at = e.started_at;
  finished_at = text_or_empty e.finished_at;
})

-- `Store.Execution`
unfoldable pub execution : Tables → Bytes → Option ExecutionResult
unfolding execution_result
execution t id = execution_result (select_first (execution_of id) t.executions)
