-- ===== src/Daemon/Watch.antt =====
-- `Watch`: the output of a request, page by page, and its end. Each round of the loop stands beside
-- what other calls do to the tables before each of its reads.
pub mod Chunks
pub mod Complete
use shudo.Prelude.{
  ℕ, ◌+◌, Bool, true, false, not, ◌||◌, ◌&&◌, Option, none, some, List, [], ◌∷◌, Bytes,
  if◌then◌else◌, ◌==◌, Result, ok, err,
}
use shudo.Model.{Status, is_terminal, Approval}
use shudo.State.Tables.{Codec, Tables, StoredRequest, StoreError, OutputChunk, ExecutionResult}
use shudo.State.Requests.{get_from, expire_outstanding}
use shudo.State.Approvals.{approval_for, execution}
use shudo.State.Output.{output_after}
use shudo.Daemon.Authority.{
  Peer, RpcError, not_found, permission_denied, resource_exhausted, canceled, internal,
  store_failed, requester, approval_actor,
}
use shudo.Daemon.Limits.{LimitConfig, Limits, acquire_watcher, release_watcher}

pub record StateEvent : Type 0 where
  pub status : Status
  pub truncated : Bool
  pub decision : Bytes
  pub approved_by : Bytes
  pub exit_code : Option ℕ
  pub signal : Bytes

-- The `LocalEvent`s of the two types that are sent.
pub data LocalEvent : Type 0 where
  output_event : OutputChunk → LocalEvent
  finished_event : StateEvent → LocalEvent

pub record WatchRound : Type 0 where
  pub now_text : Bytes
  pub before_output : Tables → Tables
  pub before_state : Tables → Tables
  pub before_approval : Tables → Tables
  pub before_execution : Tables → Tables
  pub accepts : LocalEvent → Bool
  pub context_done : Bool

-- What was sent, the tables, and the answer: `none` while the call still waits.
pub record Watched : Type 0 where
  pub events : List LocalEvent
  pub tables : Tables
  pub answer : Option (Result RpcError (Unit {0}))

abbrev pub send_before : LocalEvent → Watched → Watched
send_before event w = record w { events = event ∷ w.events }

abbrev ended : Tables → Result RpcError (Unit {0}) → Watched
ended t r = record { events = []; tables = t; answer = some r }

-- The result of a page: what was sent, the next sequence number, and whether all was sent. The
-- sequence numbers count pieces of output from 0, far below 2 ^ 64.
pub record Sent : Type 0 where
  pub events : List LocalEvent
  pub after : ℕ
  pub all_sent : Bool

unfoldable pub send_chunks : (LocalEvent → Bool) → ℕ → List OutputChunk → Sent
send_chunks accepts after [] = record { events = []; after = after; all_sent = true }
send_chunks accepts after (k ∷ page) =
    let rest = send_chunks accepts (k.sequence + 1) page in
    if accepts (output_event k)
    then record rest { events = output_event k ∷ rest.events }
    else record { events = []; after = after; all_sent = false }

-- An error of `ApprovalFor` counts as no approval.
unfoldable pub decision_of : Result StoreError (Option Approval) → Option Approval
decision_of (err e) = none
decision_of (ok a) = a

unfoldable pub finished : StoredRequest → Option Approval → Option ExecutionResult → StateEvent
unfolding approval_actor
finished item a x = record {
  status = item.status;
  truncated = item.output_truncated;
  decision = elim a [ none ↦ [] | some b ↦ b.decision ];
  approved_by = elim a [ none ↦ [] | some b ↦ approval_actor b ];
  exit_code = elim x [ none ↦ none | some r ↦ r.exit_code ];
  signal = elim x [ none ↦ [] | some r ↦ r.signal ];
}

send_last : (LocalEvent → Bool) → LocalEvent → Tables → Watched
send_last accepts event t =
    if accepts event
    then record { events = event ∷ []; tables = t; answer = some (ok tt) }
    else ended t (err internal)

-- After the last page: the state, and the end of the round. `again` is the rest of the loop.
end_item : Codec → Bytes → WatchRound → StoredRequest → (Tables → Watched) → Tables → Watched
unfolding finished decision_of send_last
end_item c id r item again t =
    let t1 = r.before_approval t in
    let t2 = r.before_execution t1 in
    let event =
      finished_event (finished item (decision_of (approval_for c t1 id)) (execution t2 id)) in
    if is_terminal item.status
    then send_last r.accepts event t2
    else if r.context_done
    then ended t1 (err canceled)
    else again t1

end_round :
    Codec
    → Bytes
    → WatchRound
    → Result StoreError (Option StoredRequest)
    → (Tables → Watched)
    → Tables
    → Watched
unfolding end_item
end_round c id r (err x) again t = ended t (err (store_failed x))
end_round c id r (ok none) again t = ended t (err not_found)
end_round c id r (ok (some item)) again t = end_item c id r item again t

unfoldable pub send_all : List LocalEvent → Watched → Watched
send_all [] w = w
send_all (e ∷ events) w = send_before e (send_all events w)

-- What follows the page: an error of the stream, the next page, or the state.
after_page : Codec → Bytes → WatchRound → Sent → Bool → (Tables → Watched) → Tables → Watched
unfolding end_round
after_page c id r sent more again t =
    if not sent.all_sent
    then ended t (err internal)
    else if more
    then again t
    else let t' = r.before_state t in end_round c id r (get_from c t' id) again t'

unfoldable pub watch_rounds : Codec → Bytes → ℕ → ℕ → List WatchRound → Tables → Watched
unfolding send_chunks send_all after_page
watch_rounds c id live_bytes after [] t = record { events = []; tables = t; answer = none }
watch_rounds c id live_bytes after (r ∷ rounds) t =
    let t1 = expire_outstanding c r.now_text (r.before_output t) in
    let page = output_after t1 id after live_bytes in
    let sent = send_chunks r.accepts after page.0 in
    let again = watch_rounds c id live_bytes sent.after rounds in
    send_all sent.events (after_page c id r sent page.1 again t1)

pub record WatchRequest : Type 0 where
  pub request_id : Bytes
  pub after_sequence : ℕ

watch_refused : RpcError → Limits → Tables → Watched × Limits
watch_refused e l t = (ended t (err e), l)

watch_admitted :
    Codec
    → ℕ
    → ℕ
    → WatchRequest
    → Bytes
    → List WatchRound
    → Tables
    → Limits × Bool
    → Watched × Limits
unfolding watch_refused
watch_admitted c live_bytes uid input id rounds t (l, false) = watch_refused resource_exhausted l t
watch_admitted c live_bytes uid input id rounds t (l, true) =
    let w = watch_rounds c input.request_id live_bytes input.after_sequence rounds t in
    (w, elim w.answer [ none ↦ l | some _ ↦ release_watcher uid id l ])

watch_item :
    Codec
    → LimitConfig
    → ℕ
    → ℕ
    → WatchRequest
    → List WatchRound
    → Limits
    → Tables
    → Result StoreError (Option StoredRequest)
    → Watched × Limits
unfolding watch_refused watch_admitted
watch_item c lc live_bytes uid input rounds l t (err x) = watch_refused (store_failed x) l t
watch_item c lc live_bytes uid input rounds l t (ok none) = watch_refused not_found l t
watch_item c lc live_bytes uid input rounds l t (ok (some item)) =
    if not (uid == 0) && not (uid == item.request.requester.uid)
    then watch_refused permission_denied l t
    else watch_admitted c live_bytes uid input item.request.request_id rounds t
        (acquire_watcher lc uid item.request.request_id l)

-- One call of `Watch`, and the counters that it leaves, which still count a call that waits.
unfoldable pub watch :
    Codec
    → LimitConfig
    → ℕ
    → Peer
    → WatchRequest
    → List WatchRound
    → Limits
    → Tables
    → Watched × Limits
unfolding watch_refused watch_item
watch c lc live_bytes peer input rounds l t = elim (requester peer) [
  | err e ↦ watch_refused e l t
  | ok actor ↦ watch_item c lc live_bytes actor.uid input rounds l t (get_from c t input.request_id)
]
