-- ===== src/Cli/Admin.antt =====
-- `runAdmin`: the reviews of root, as one run of the calls that it makes.
pub mod Confirmed
use shudo.Prelude.{
  ℕ, Bool, true, false, not, ◌&&◌, Option, none, some, List, [], Bytes, length, if◌then◌else◌, ◌==◌,
  str_eq, is_empty, ℤ, Result, ok, err,
}
use shudo.State.Approvals.{approve_text, deny_text}
use shudo.Daemon.Decide.{DecisionRequest, DecisionResponse}
use shudo.Daemon.Records.{RequestRecord}
use shudo.Cli.Parse.{AdminOptions, Operation, pending, history, show, approve, deny}
use shudo.Cli.Select.{Terminal, SelectError, select_request}
use shudo.Cli.Reconcile.{GrpcCode, ambiguous_decision_error, ReconcileError, reconcile_decision}

-- What the daemon answers to each call, and the answer at the terminal: `confirms` is whether the
-- record that is shown is approved. `inspect_again` is the inspection after a lost answer.
pub record AdminEnv : Type 0 where
  pub euid : ℕ
  pub connects : Bool
  pub lower : Bytes → Bytes
  pub atoi : Bytes → Option ℤ
  pub tty : Terminal
  pub list : Bool → Option (List RequestRecord)
  pub inspect : Bytes → Option RequestRecord
  pub confirms : RequestRecord → Bool
  pub decide : Operation → DecisionRequest → Result GrpcCode DecisionResponse
  pub inspect_again : Bytes → Result GrpcCode RequestRecord

pub data AdminError : Type 0 where
  not_root no_connection call_failed hash_differs needs_hash not_confirmed : AdminError
  not_selected : SelectError → AdminError
  decision_failed : GrpcCode → AdminError
  not_reconciled : ReconcileError → AdminError

pub data AdminAnswer : Type 0 where
  listed : List RequestRecord → AdminAnswer
  shown : RequestRecord → AdminAnswer
  decided : DecisionResponse → AdminAnswer

-- The decision that was sent, if any, and the answer.
pub record AdminRun : Type 0 where
  pub sent : Option DecisionRequest
  pub answer : Result AdminError AdminAnswer

abbrev stopped : AdminError → AdminRun
stopped e = record { sent = none; answer = err e }

abbrev pub select_with : AdminEnv → Bytes → Bool → Result SelectError Bytes
select_with e selector all = select_request e.lower e.atoi e.tty selector (e.list all)

abbrev shown_or_failed : Option RequestRecord → AdminRun
shown_or_failed none = stopped call_failed
shown_or_failed (some r) = record { sent = none; answer = ok (shown r) }

-- A whole identifier is not looked for in the list.
run_show : AdminEnv → Bytes → AdminRun
run_show e id =
    if length id == 36 then shown_or_failed (e.inspect id) else elim (select_with e id true) [
      | err x ↦ stopped (not_selected x)
      | ok selected ↦ shown_or_failed (e.inspect selected)
    ]

abbrev decision_text : Operation → Bytes
decision_text approve = approve_text
decision_text _ = deny_text

reconciled : Result ReconcileError DecisionResponse → Result AdminError AdminAnswer
reconciled (err x) = err (not_reconciled x)
reconciled (ok r) = ok (decided r)

-- The answer of the call, or what the record says where the answer was lost.
after_decision :
    AdminEnv
    → Operation
    → DecisionRequest
    → Result GrpcCode DecisionResponse
    → Result AdminError AdminAnswer
unfolding reconciled
after_decision e operation request (ok r) = ok (decided r)
after_decision e operation request (err code) =
    if ambiguous_decision_error code
    then reconciled
        (reconcile_decision (e.inspect_again request.request_id) request (decision_text operation))
    else err (decision_failed code)

send_decision : AdminEnv → Operation → DecisionRequest → AdminRun
unfolding after_decision
send_decision e operation request = record {
  sent = some request;
  answer = after_decision e operation request (e.decide operation request);
}

-- How an approval is confirmed: by the hash of the inspected record, or at the terminal.
unfoldable pub confirmation : AdminEnv → AdminOptions → RequestRecord → Result AdminError (Unit {0})
unfolding is_empty str_eq
confirmation e o r =
    if not (is_empty o.confirm_hash)
    then (if not (str_eq o.confirm_hash r.request_hash) then err hash_differs else ok tt)
    else if o.json
    then err needs_hash
    else if not (e.confirms r)
    then err not_confirmed
    else ok tt

approve_confirmed :
    AdminEnv → AdminOptions → Bytes → RequestRecord → Result AdminError (Unit {0}) → AdminRun
unfolding send_decision
approve_confirmed e o id r (err x) = stopped x
approve_confirmed e o id r (ok u) =
    send_decision e approve
      (record { request_id = id; request_hash = r.request_hash; reason = o.reason })

approve_inspected : AdminEnv → AdminOptions → Bytes → Option RequestRecord → AdminRun
unfolding approve_confirmed
approve_inspected e o id none = stopped call_failed
approve_inspected e o id (some r) = approve_confirmed e o id r (confirmation e o r)

run_approve : AdminEnv → AdminOptions → Result SelectError Bytes → AdminRun
unfolding approve_inspected
run_approve e o (err x) = stopped (not_selected x)
run_approve e o (ok id) = approve_inspected e o id (e.inspect id)

run_deny : AdminEnv → AdminOptions → Result SelectError Bytes → AdminRun
unfolding send_decision
run_deny e o (err x) = stopped (not_selected x)
run_deny e o (ok id) =
    send_decision e deny (record { request_id = id; request_hash = []; reason = o.reason })

listed_or_failed : Option (List RequestRecord) → AdminRun
listed_or_failed none = stopped call_failed
listed_or_failed (some records) = record { sent = none; answer = ok (listed records) }

run_operation : AdminEnv → AdminOptions → Operation → AdminRun
unfolding run_show run_approve run_deny listed_or_failed
run_operation e o pending = listed_or_failed (e.list false)
run_operation e o history = listed_or_failed (e.list true)
run_operation e o show = run_show e o.request_id
run_operation e o approve = run_approve e o (select_with e o.request_id false)
run_operation e o deny = run_deny e o (select_with e o.request_id false)

unfoldable pub run_admin : AdminEnv → AdminOptions → AdminRun
unfolding run_operation
run_admin e o =
    if not (e.euid == 0)
    then stopped not_root
    else if not e.connects
    then stopped no_connection
    else run_operation e o o.operation
