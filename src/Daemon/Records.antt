-- ===== src/Daemon/Records.antt =====
-- What root sees of the requests, `ListRequests`, `InspectRequest` and `requestRecord`; and one tick
-- of `RunMaintenance`.
pub mod Serviced
use shudo.Prelude.{
  ℕ, Bool, true, not, ◌&&◌, ◌||◌, Option, none, some, List, [], ◌∷◌, ◌++◌, Bytes, codes,
  if◌then◌else◌, leb, ◌==◌, any, all, is_empty, Result, ok, err,
}
use mathlib.Core.List.{map}
use shudo.Model.{Status, Requester, Approval}
use shudo.State.Sql.{order_desc}
use shudo.State.Tables.{Codec, Tables, StoredRequest, StoreError}
use shudo.State.Requests.{get_from, expire_outstanding}
use shudo.State.Listing.{recent, recent_pending}
use shudo.State.Approvals.{approval_for}
use shudo.State.Requests.{TxIo}
use shudo.State.Retention.{prune_unapproved}
use shudo.Config.{Daemon}
use shudo.Daemon.Authority.{Peer, RpcError, not_found, store_failed, root_requester, approval_actor}

abbrev is_between : ℕ → ℕ → ℕ → Bool
is_between low high byte = leb low byte && leb byte high

-- A character that is shown as it is. All of them are one byte of UTF-8, and no other text has only
-- such bytes.
unfoldable pub is_plain_byte : ℕ → Bool
unfolding any
is_plain_byte byte =
    is_between b'a' b'z' byte
    || is_between b'A' b'Z' byte
    || is_between b'0' b'9' byte
    || any (λ c. c == byte) (codes "_@%+=:,./-")

-- `quote` is `strconv.QuoteToASCII`.
unfoldable pub display_argument : (Bytes → Bytes) → Bytes → Bytes
unfolding is_plain_byte all is_empty
display_argument quote value =
    if not (is_empty value) && all is_plain_byte value then value else quote value

-- `strings.Join` with a space.
unfoldable pub join_space : List Bytes → Bytes
join_space [] = []
join_space (a ∷ []) = a
join_space (a ∷ b ∷ values) = a ++ codes " " ++ join_space (b ∷ values)

unfoldable pub command : (Bytes → Bytes) → Bytes → List Bytes → Bytes
unfolding display_argument join_space
command quote executable argv = join_space (map (display_argument quote) (executable ∷ argv))

-- A text that is missing is sent as an empty one.
pub record RequestRecord : Type 0 where
  pub request_id : Bytes
  pub request_hash : Bytes
  pub status : Status
  pub requester_uid : ℕ
  pub requester_gid : ℕ
  pub requester_username : Bytes
  pub requester_group : Bytes
  pub executable : Bytes
  pub argv : List Bytes
  pub cwd : Bytes
  pub env : List (Bytes × Bytes)
  pub command : Bytes
  pub reason : Bytes
  pub created_at : Bytes
  pub expires_at : Bytes
  pub policy_result : Bytes
  pub shell : Bool
  pub interpreter : Bool
  pub script : Bool
  pub warnings : List Bytes
  pub decided_by : Bytes
  pub decision_reason : Bytes
  pub decision : Bytes
  pub approval_id : Bytes

abbrev shown_text : Option Bytes → Bytes
shown_text none = []
shown_text (some s) = s

-- The record before the decision is looked up.
unfoldable pub undecided_record : (Bytes → Bytes) → StoredRequest → RequestRecord
unfolding command
undecided_record quote item =
    let q = item.request in
    record {
      request_id = q.request_id;
      request_hash = item.request_hash;
      status = item.status;
      requester_uid = q.requester.uid;
      requester_gid = q.requester.gid;
      requester_username = shown_text q.requester.username;
      requester_group = shown_text q.requester.group_name;
      executable = q.execution.executable;
      argv = q.execution.argv;
      cwd = q.execution.cwd;
      env = q.execution.env;
      command = command quote q.execution.executable q.execution.argv;
      reason = q.reason;
      created_at = q.created_at;
      expires_at = q.expires_at;
      policy_result = q.policy_result;
      shell = q.risk.shell;
      interpreter = q.risk.interpreter;
      script = q.risk.script;
      warnings = q.risk.warnings;
      decided_by = [];
      decision_reason = [];
      decision = [];
      approval_id = [];
    }

-- An error of `ApprovalFor` counts as no decision.
unfoldable pub with_decision : Result StoreError (Option Approval) → RequestRecord → RequestRecord
unfolding approval_actor
with_decision (err e) r = r
with_decision (ok none) r = r
with_decision (ok (some a)) r = record r {
  decided_by = approval_actor a;
  decision_reason = a.reason;
  decision = a.decision;
  approval_id = a.approval_id;
}

unfoldable pub request_record : (Bytes → Bytes) → Codec → Tables → StoredRequest → RequestRecord
unfolding undecided_record with_decision
request_record quote c t item =
    with_decision (approval_for c t item.request.request_id) (undecided_record quote item)

-- The handler's sort is by the text of the creation time, the latest first; `sort.Slice` may order
-- equal ones either way, and this is one of the orders.
records_of :
    (Bytes → Bytes)
    → Codec
    → Tables
    → Result StoreError (List StoredRequest)
    → Result RpcError (List RequestRecord)
unfolding request_record
records_of quote c t (err e) = err (store_failed e)
records_of quote c t (ok items) = ok (
    map (request_record quote c t)
      (order_desc (λ (item : StoredRequest). item.request.created_at) items))

list_as :
    (Bytes → Bytes)
    → Codec
    → Bytes
    → Bool
    → Result RpcError Requester
    → Tables
    → Result RpcError (List RequestRecord) × Tables
unfolding records_of
list_as quote c now history (err e) t = (err e, t)
list_as quote c now history (ok actor) t =
    let t1 = expire_outstanding c now t in
    let (items, t2) =
      if history then (recent c 50 0 true t1, t1) else recent_pending c now 256 0 true t1 in
    (records_of quote c t2 items, t2)

-- `now` is the text of the clock at both expiries.
unfoldable pub list_requests :
    (Bytes → Bytes)
    → Codec
    → Bytes
    → Peer
    → Bool
    → Tables
    → Result RpcError (List RequestRecord) × Tables
unfolding list_as
list_requests quote c now peer history t = list_as quote c now history (root_requester peer) t

inspect_found :
    (Bytes → Bytes)
    → Codec
    → Tables
    → Result StoreError (Option StoredRequest)
    → Result RpcError RequestRecord
unfolding request_record
inspect_found quote c t (err e) = err (store_failed e)
inspect_found quote c t (ok none) = err not_found
inspect_found quote c t (ok (some item)) = ok (request_record quote c t item)

unfoldable pub inspect_request :
    (Bytes → Bytes) → Codec → Peer → Bytes → Tables → Result RpcError RequestRecord
unfolding inspect_found
inspect_request quote c peer id t = elim (root_requester peer) [
  | err e ↦ err e
  | ok actor ↦ inspect_found quote c t (get_from c t id)
]

-- The events of the loop of `RunMaintenance`: the second's tick, and the hour's with the time that
-- is `RetentionDays` before it. Errors are printed only.
pub data Tick : Type 0 where
  expiry_tick : Bytes → Tick
  retention_tick : TxIo → ℕ → Tick

unfoldable pub run_tick : Codec → Daemon → Tick → Tables → Tables
run_tick c config (expiry_tick now) t = expire_outstanding c now t
run_tick c config (retention_tick io older_than) t =
    (prune_unapproved c io older_than config.max_retained_unapproved t).1

unfoldable pub run_ticks : Codec → Daemon → List Tick → Tables → Tables
unfolding run_tick
run_ticks c config [] t = t
run_ticks c config (tick ∷ ticks) t = run_ticks c config ticks (run_tick c config tick t)

-- A retention comes first, then the ticks until the context is done.
unfoldable pub run_maintenance : Codec → Daemon → TxIo → ℕ → List Tick → Tables → Tables
unfolding run_ticks
run_maintenance c config io older_than ticks t =
    run_ticks c config (retention_tick io older_than ∷ ticks) t
