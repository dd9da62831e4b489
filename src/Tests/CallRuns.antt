-- ===== src/Tests/CallRuns.antt =====
-- The whole way of one request: submitted by a user, approved by root and executed, with a restart.
use shudo.Prelude.{refl, false, List, [], ◌∷◌, codes}
use shudo.State.Approvals.{approve_text}
use shudo.State.Life.{Steps, view}
use shudo.State.Life.Lawful.{IsLawful}
use shudo.Daemon.Calls.{Call, submits, decides, executes, restarts, run_calls}
use shudo.Daemon.Calls.Lawful.{run_calls-Steps, run_calls-IsLawful}
use mathlib.Core.Option.{none, some}
use shudo.Prelude.{◌≡◌, refl, true, false, ok, Bytes, ℕ}
use shudo.Model.{waiting, Requester}
use shudo.State.Sql.{exists_where}
use shudo.State.Tables.{execution_of}
use shudo.State.Requests.{expire_outstanding}
use shudo.State.Requests.Succeeds.{HasRow}
use shudo.Daemon.Authority.{root_requester}
use shudo.Daemon.Decide.{decide}
use shudo.Daemon.Decide.Succeeds
use shudo.Daemon.Decide.Succeeds.{Approvable}
use shudo.Daemon.Execute.{execute}
use shudo.Daemon.Execute.Succeeds.{Runnable, approve-execute}
use shudo.Tests.Sample.{the_request, row_with, tables_waiting, the_hash, the_id, one_codec, commits}
use shudo.Tests.SubmitRuns.{the_submission, id_message, the_caller, idle_service, later_run}
use shudo.Tests.DaemonRuns.{the_run, id_command, ask_policy, the_call, peer_with, the_decision}

abbrev one_story : List Call
one_story =
    submits the_submission the_caller id_message
    ∷ decides the_call (peer_with 0) the_decision approve_text
    ∷ executes later_run false the_id
    ∷ restarts commits (codes "t3")
    ∷ []

run_calls-Steps_example :
    Steps
      (view the_id idle_service.tables)
      (view the_id (run_calls one_codec one_story idle_service).tables)
run_calls-Steps_example = run_calls-Steps one_codec one_story idle_service the_id

run_calls-IsLawful_example :
    IsLawful (view the_id (run_calls one_codec one_story idle_service).tables)
run_calls-IsLawful_example = run_calls-IsLawful one_codec one_story idle_service the_id refl refl

abbrev peer_requester : ℕ → Requester
peer_requester uid = record {
  uid = uid;
  gid = 0;
  pid = some 9;
  username = some (codes "root");
  group_name = none;
}

not_expired : expire_outstanding one_codec (codes "t1") tables_waiting ≡ tables_waiting
unfolding expire_outstanding shudo.State.Sql.update_where shudo.State.Requests.is_outdated
not_expired = refl

waiting_row :
    HasRow one_codec the_id waiting the_request
      (row_with waiting)
      (expire_outstanding one_codec (codes "t1") tables_waiting)
unfolding shudo.State.Sql.select_first expire_outstanding shudo.State.Sql.update_where
    shudo.Prelude.str_eq shudo.State.Requests.is_outdated shudo.State.Sql.count_where
waiting_row = record { found = refl; single = refl; status = refl; content = refl }

approvable :
    Approvable the_call the_decision
      (peer_requester 0)
      the_request
      (row_with waiting)
      (codes "a1")
      (codes "{}")
      (expire_outstanding one_codec (codes "t1") tables_waiting)
unfolding shudo.Daemon.Authority.equal shudo.Prelude.str_eq shudo.Daemon.Decide.hash_matches
    shudo.Strings.trim_space shudo.Prelude.contains_byte exists_where expire_outstanding
    shudo.State.Approvals.is_valid_approval shudo.Daemon.Decide.new_decision
approvable = record {
  row = waiting_row;
  own = refl;
  named = refl;
  hashed = refl;
  reason = refl;
  uuid = refl;
  begins = refl;
  commits = refl;
  undecided = refl;
  fresh = refl;
  valid = refl;
  marshalled = refl;
}

runnable : Runnable the_run the_request (row_with waiting) id_command
unfolding shudo.Daemon.Execute.is_future shudo.Daemon.Authority.equal shudo.Prelude.str_eq
    shudo.Policy.load shudo.Daemon.Execute.policy_allows shudo.Policy.evaluate
    shudo.Daemon.Execute.prepare shudo.Integrity.open_verified_directory
    shudo.Integrity.same_directory shudo.Integrity.directory_identity
    shudo.Integrity.open_verified_executable shudo.Integrity.is_regular shudo.Integrity.has_exec_bit
    shudo.Integrity.file_identity shudo.Integrity.sanitize_environment
runnable = record {
  in_time = refl;
  hash = the_hash;
  hashed = refl;
  unchanged = refl;
  config = ask_policy;
  loaded = refl;
  allowed = refl;
  verified = refl;
  begins = refl;
  commits = refl;
  pipes_open = refl;
  starts = refl;
}

by_root : root_requester (peer_with 0) ≡ ok (peer_requester 0)
unfolding root_requester
by_root = refl

decision_read :
    one_codec.unmarshal_approval (codes "{}")
    ≡ some (
        shudo.Daemon.Decide.Succeeds.the_decision the_call the_decision
          (peer_requester 0)
          the_request
          (row_with waiting)
          (codes "a1")
          (codes "{}")
          (expire_outstanding one_codec (codes "t1") tables_waiting)
          approvable)
unfolding shudo.Daemon.Decide.new_decision shudo.Strings.trim_space
decision_read = refl

not_executed : exists_where (execution_of the_id) tables_waiting.executions ≡ false
unfolding exists_where
not_executed = refl

approve-execute_example :
    ((decide the_call (peer_with 0) the_decision approve_text tables_waiting).starts ≡ true)
    × ((execute the_run false the_id
          (decide the_call (peer_with 0) the_decision approve_text tables_waiting).tables).spawned
        ≡ some id_command)
approve-execute_example =
    approve-execute the_call the_run (peer_with 0) the_decision (peer_requester 0) the_request
      (row_with waiting) (codes "a1") (codes "{}") tables_waiting id_command refl by_root approvable
      decision_read not_executed runnable
