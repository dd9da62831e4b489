-- ===== src/Cli/Reconcile.antt =====
-- What the command makes of an answer to a decision that did not come: `decisionResponseFromRecord`.
pub mod Existing
use shudo.Prelude.{
  ℕ, Bool, true, false, not, ◌&&◌, ◌||◌, Option, none, some, Bytes, if◌then◌else◌, str_eq, is_empty,
  ◌==◌, Result, ok, err,
}
use shudo.Model.{Status, waiting, status_eq}
use shudo.Daemon.Records.{RequestRecord}
use shudo.Daemon.Decide.{DecisionRequest, DecisionResponse, is_approve, next_status}

-- The codes of google.golang.org/grpc.
pub data GrpcCode : Type 0 where
  code_ok code_canceled code_unknown code_invalid_argument code_deadline_exceeded : GrpcCode
  code_not_found code_already_exists code_permission_denied code_resource_exhausted : GrpcCode
  code_failed_precondition code_aborted code_out_of_range code_unimplemented code_internal :
      GrpcCode
  code_unavailable code_data_loss code_unauthenticated : GrpcCode

-- The decision may have been stored all the same.
unfoldable pub ambiguous_decision_error : GrpcCode → Bool
ambiguous_decision_error code_canceled = true
ambiguous_decision_error code_deadline_exceeded = true
ambiguous_decision_error code_unknown = true
ambiguous_decision_error code_internal = true
ambiguous_decision_error code_unavailable = true
ambiguous_decision_error _ = false

pub data ReconcileError : Type 0 where
  wrong_request not_committed no_decision conflicting_decision missing_approval_id : ReconcileError
  wrong_hash inspection_failed : ReconcileError

reconcile_record : RequestRecord → DecisionRequest → Bytes → Result ReconcileError DecisionResponse
reconcile_record r request decision =
    if not (str_eq r.request_id request.request_id)
    then err wrong_request
    else if is_empty r.decision
    then (if status_eq r.status waiting then err not_committed else err no_decision)
    else if not (str_eq r.decision decision)
    then err conflicting_decision
    else if is_empty r.approval_id
    then err missing_approval_id
    else if is_approve decision
        && (not (str_eq r.request_hash request.request_hash) || is_empty request.request_hash)
    then err wrong_hash
    else ok (record {
      request_id = r.request_id;
      approval_id = r.approval_id;
      status = next_status decision;
      decided_by = r.decided_by;
    })

unfoldable pub decision_response_from_record :
    Option RequestRecord → DecisionRequest → Bytes → Result ReconcileError DecisionResponse
unfolding reconcile_record
decision_response_from_record none request decision = err wrong_request
decision_response_from_record (some r) request decision = reconcile_record r request decision

-- `reconcileDecision`, on the answer of the inspection.
unfoldable pub reconcile_decision :
    {E : Type 0}
    → Result E RequestRecord
    → DecisionRequest
    → Bytes
    → Result ReconcileError DecisionResponse
unfolding decision_response_from_record
reconcile_decision (err e) request decision = err inspection_failed
reconcile_decision (ok r) request decision = decision_response_from_record (some r) request decision
