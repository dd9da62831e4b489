-- ===== src/Daemon/Decide.antt =====
-- `Approve` and `Deny`: `decide` and `existingDecision`; and `Cancel`.
pub mod Outcomes
pub mod Serviced
pub mod Succeeds
use shudo.Prelude.{
  ℕ, Bool, true, false, not, ◌&&◌, ◌||◌, Option, none, some, List, [], ◌∷◌, ◌++◌, Bytes, codes,
  length, if◌then◌else◌, ltb, ◌==◌, str_eq, is_empty, contains_byte, Result, ok, err, ◌>>=◌,
}
use shudo.Strings.{trim_space}
use shudo.Model.{
  Status, created, waiting, approved, denied, cancelled, policy_rejected, status_eq, Requester,
  ExecutionRequest, Approval,
}
use shudo.State.Tables.{Codec, Tables, StoredRequest, StoreError}
use shudo.State.Requests.{TxIo, get_from, expire_outstanding, store_transition, Outcome}
use shudo.State.Approvals.{approve_text, deny_text, approval_for, accept_approval}
use shudo.State.Startup.{record_security_event}
use shudo.Daemon.Authority.{
  Peer, RpcError, invalid_argument, not_found, failed_precondition, permission_denied, data_loss,
  aborted, canceled, internal, store_failed, requester, root_requester, equal, approval_actor,
}

-- What one call finds outside: the clock, the random identifier (`none` is an error), the fate of
-- its transactions and whether its context has ended. `hash` is `securejson.Hash`: JSON, canonical
-- form and SHA-256, of libraries (`none` is an error).
pub record CallEnv : Type 0 where
  pub codec : Codec
  pub hash : ExecutionRequest → Option Bytes
  pub now : Bytes
  pub uuid : Option Bytes
  pub io : TxIo
  pub context_done : Bool

pub record DecisionRequest : Type 0 where
  pub request_id : Bytes
  pub request_hash : Bytes
  pub reason : Bytes

pub record DecisionResponse : Type 0 where
  pub request_id : Bytes
  pub approval_id : Bytes
  pub status : Status
  pub decided_by : Bytes

abbrev pub is_approve : Bytes → Bool
is_approve decision = str_eq decision approve_text

abbrev pub next_status : Bytes → Status
next_status decision = if is_approve decision then approved else denied

unfoldable pub check_existing :
    StoredRequest
    → Bytes
    → Result StoreError (Option Approval)
    → Result RpcError (Option DecisionResponse)
check_existing item decision (err e) = err (store_failed e)
check_existing item decision (ok none) = ok none
check_existing item decision (ok (some a)) =
    if not (equal a.request_id item.request.request_id)
      || not (equal a.request_hash item.request_hash)
    then err data_loss
    else if not (str_eq a.decision decision)
    then err failed_precondition
    else ok (
        some (record {
          request_id = item.request.request_id;
          approval_id = a.approval_id;
          status = next_status decision;
          decided_by = approval_actor a;
        }))

-- `ok none` is "not found".
unfoldable pub existing_decision :
    Codec → StoredRequest → Bytes → Tables → Result RpcError (Option DecisionResponse)
unfolding check_existing
existing_decision c item decision t =
    check_existing item decision (approval_for c t item.request.request_id)

-- The answer of a call, the tables that it leaves, and whether it starts `execute` on the request.
pub record Reply : Type 0 where
  pub answer : Result RpcError DecisionResponse
  pub tables : Tables
  pub starts : Bool

abbrev refused : RpcError → Tables → Reply
refused e t = record { answer = err e; tables = t; starts = false }

abbrev or_else :
    Result RpcError (Option DecisionResponse) → RpcError → Result RpcError DecisionResponse
or_else (err e) other = err e
or_else (ok none) other = err other
or_else (ok (some r)) other = ok r

-- The request is not waiting: the answer is that of the decision that is stored.
decided_already : Codec → StoredRequest → Bytes → Tables → Reply
unfolding existing_decision
decided_already c item decision t =
    let existing = existing_decision c item decision t in
    record {
      answer = or_else existing failed_precondition;
      tables = t;
      starts = elim existing [
        | ok (some r) ↦ is_approve decision && status_eq item.status approved
        | _ ↦ false
      ];
    }

-- The stored request is not the one that was hashed.
integrity_failed : CallEnv → StoredRequest → Tables → Reply
integrity_failed e item t =
    let id = item.request.request_id in
    refused data_loss (
      record_security_event (codes "request.integrity-failed") id item.request_hash
        (codes "Persisted request hash mismatch during local decision") e.now
        (store_transition e.codec e.io id policy_rejected (some waiting) t).1)

unfoldable pub new_decision : CallEnv → Requester → StoredRequest → Bytes → Bytes → Bytes → Approval
new_decision e actor item decision reason approval_id = record {
  version = 1;
  approval_id = approval_id;
  request_id = item.request.request_id;
  request_hash = item.request_hash;
  decision = decision;
  approved_by = record { subject = codes "uid:0"; display_name = actor.username };
  approved_at = e.now;
  reason = reason;
}

decision_event : CallEnv → StoredRequest → Bytes → Bytes → Tables → Tables
decision_event e item decision reason t =
    record_security_event
      (if is_approve decision then codes "request.approved" else codes "request.denied")
      item.request.request_id item.request_hash
      (if is_empty reason then decision ++ codes "d by local uid 0" else reason) e.now t

-- What follows `AcceptApprovalContext`.
answer_accept : CallEnv → StoredRequest → Bytes → Bytes → Approval → Outcome → Reply
unfolding decision_event existing_decision
answer_accept e item decision reason a (ok u, t) = record {
  answer = ok (record {
    request_id = item.request.request_id;
    approval_id = a.approval_id;
    status = next_status decision;
    decided_by = approval_actor a;
  });
  tables = decision_event e item decision reason t;
  starts = is_approve decision;
}
answer_accept e item decision reason a (err x, t) = record {
  answer =
      or_else (existing_decision e.codec item decision t)
        (if e.context_done then canceled else aborted);
  tables = t;
  starts = false;
}

accept_new : CallEnv → Requester → StoredRequest → Bytes → Bytes → Option Bytes → Tables → Reply
unfolding answer_accept
accept_new e actor item decision reason none t = refused internal t
accept_new e actor item decision reason (some approval_id) t =
    let a = new_decision e actor item decision reason approval_id in
    answer_accept e item decision reason a (accept_approval e.codec e.io e.now a t)

-- The hash is computed again, and is the one that is stored.
unfoldable pub hash_matches : (ExecutionRequest → Option Bytes) → StoredRequest → Bool
unfolding equal
hash_matches hash item = elim (hash item.request) [
  | none ↦ false
  | some h ↦ equal h item.request_hash
]

decide_found :
    CallEnv → Requester → DecisionRequest → Bytes → Bytes → StoredRequest → Tables → Reply
unfolding decided_already integrity_failed accept_new
decide_found e actor input decision reason item t =
    if is_approve decision && not (equal input.request_hash item.request_hash)
    then refused failed_precondition t
    else if not (status_eq item.status waiting)
    then decided_already e.codec item decision t
    else if not (hash_matches e.hash item)
    then integrity_failed e item t
    else accept_new e actor item decision reason e.uuid t

decide_loaded :
    CallEnv
    → Requester
    → DecisionRequest
    → Bytes
    → Bytes
    → Result StoreError (Option StoredRequest)
    → Tables
    → Reply
unfolding decide_found
decide_loaded e actor input decision reason (err x) t = refused (store_failed x) t
decide_loaded e actor input decision reason (ok none) t = refused not_found t
decide_loaded e actor input decision reason (ok (some item)) t =
    decide_found e actor input decision reason item t

abbrev bad_reason : Bytes → Bool
bad_reason reason = ltb 4096 (length reason) || contains_byte 0 reason

decide_as : CallEnv → Result RpcError Requester → DecisionRequest → Bytes → Tables → Reply
unfolding decide_loaded
decide_as e (err x) input decision t = refused x t
decide_as e (ok actor) input decision t =
    let reason = trim_space input.reason in
    let t' = expire_outstanding e.codec e.now t in
    if bad_reason reason
    then refused invalid_argument t
    else decide_loaded e actor input decision reason (get_from e.codec t' input.request_id) t'

unfoldable pub decide : CallEnv → Peer → DecisionRequest → Bytes → Tables → Reply
unfolding decide_as
decide e peer input decision t = decide_as e (root_requester peer) input decision t

abbrev pub approve : CallEnv → Peer → DecisionRequest → Tables → Reply
approve e peer input t = decide e peer input approve_text t

abbrev pub deny : CallEnv → Peer → DecisionRequest → Tables → Reply
deny e peer input t = decide e peer input deny_text t

-- `Cancel`
abbrev cancel_error : RpcError → Tables → Result RpcError Status × Tables
cancel_error e t = (err e, t)

abbrev cancel_moved : Outcome → Result RpcError Status × Tables
cancel_moved (ok u, t) = (ok cancelled, t)
cancel_moved (err x, t) = (err (store_failed x), t)

cancel_loaded :
    CallEnv
    → Requester
    → Bytes
    → Result StoreError (Option StoredRequest)
    → Tables
    → Result RpcError Status × Tables
cancel_loaded e actor id (err x) t = cancel_error (store_failed x) t
cancel_loaded e actor id (ok none) t = cancel_error not_found t
cancel_loaded e actor id (ok (some item)) t =
    if not (actor.uid == 0) && not (actor.uid == item.request.requester.uid)
    then cancel_error permission_denied t
    else if not (status_eq item.status created) && not (status_eq item.status waiting)
    then cancel_error failed_precondition t
    else cancel_moved (store_transition e.codec e.io id cancelled (some item.status) t)

cancel_as : CallEnv → Result RpcError Requester → Bytes → Tables → Result RpcError Status × Tables
unfolding cancel_loaded
cancel_as e (err x) id t = cancel_error x t
cancel_as e (ok actor) id t = cancel_loaded e actor id (get_from e.codec t id) t

unfoldable pub cancel : CallEnv → Peer → Bytes → Tables → Result RpcError Status × Tables
unfolding cancel_as
cancel e peer id t = cancel_as e (requester peer) id t
