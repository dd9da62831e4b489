-- ===== src/Tests/DaemonRuns.antt =====
-- Runs of the daemon: a decision of root and of another user, a command, and the limits.
use shudo.Prelude.{
  ℕ, ◌≡◌, arith, refl, Bool, true, false, Option, none, some, List, [], ◌∷◌, Bytes, codes, any,
  Result, ok, err,
}
use shudo.Model.{waiting, approved}
use shudo.Policy.{Config, require_approval}
use shudo.State.Tables.{StoredRequest}
use shudo.State.Requests.{get_from, expire_outstanding}
use shudo.State.Approvals.{approve_text}
use shudo.State.History.{run_ops}
use shudo.Integrity.{open_verified_executable, root_environment}
use shudo.Integrity.Verified.{IsVerified, open_verified_executable-IsVerified}
use shudo.Daemon.Authority.{Peer, credentials, RpcError}
use shudo.Daemon.Limits.{
  LimitConfig, recent_times, acquire_submission, acquire_watcher, is_limited, set_uid, set_request,
}
use shudo.Daemon.Limits.Admission.{
  LimitEvent, arrives, leaves, watches, limit_step, run_limits, no_limits,
}
use shudo.Daemon.Limits.Present.{nobody, present_step, run_present, Possible, Agrees, IsBounded}
use shudo.Daemon.Limits.Bounded.{run_present-IsBounded}
use shudo.Daemon.Decide.{CallEnv, DecisionRequest, DecisionResponse, decide}
use shudo.Daemon.Decide.Outcomes.{IsRoot, Granted, decide-Granted, decide-refused}
use shudo.Daemon.Execute.Captured.{drain-IsCounted}
use shudo.State.Output.Counted.{IsCounted}
use shudo.Daemon.Execute.{drain, RunEnv, Command, Process, exited, execute, helper_arguments}
use shudo.Daemon.Execute.Gate.{Cleared, execute-Cleared}
use shudo.Daemon.Execute.Once.{execute-once}
use shudo.Daemon.Execute.Started.{IsPrepared, execute-IsPrepared}
use shudo.Strings.{trim_space}
use shudo.Tests.Sample.{
  the_id, row_with, the_hash, id_file, root_directory, id_metadata, two_files, one_codec, commits,
  tables_waiting, tables_approved,
}

abbrev pub the_call : CallEnv
the_call = record {
  codec = one_codec;
  hash = λ q. some the_hash;
  now = codes "t1";
  uuid = some (codes "a1");
  io = commits;
  context_done = false;
}

abbrev pub peer_with : ℕ → Peer
peer_with uid =
    credentials (record { uid = uid; gid = 0; pid = 9; username = codes "root"; group_name = [] })

abbrev pub the_decision : DecisionRequest
the_decision = record { request_id = the_id; request_hash = the_hash; reason = [] }

abbrev the_response : DecisionResponse
the_response = record {
  request_id = the_id;
  approval_id = codes "a1";
  status = approved;
  decided_by = codes "root";
}

granted :
    (decide the_call (peer_with 0) the_decision approve_text tables_waiting).answer
    ≡ ok the_response
unfolding decide shudo.Daemon.Authority.root_requester trim_space shudo.Prelude.contains_byte
    get_from shudo.State.Sql.select_first expire_outstanding shudo.State.Sql.update_where
    shudo.Prelude.str_eq shudo.State.Requests.is_outdated shudo.Daemon.Authority.equal
    shudo.Daemon.Decide.hash_matches shudo.State.Approvals.accept_approval
    shudo.State.Approvals.is_valid_approval shudo.Daemon.Decide.new_decision
    shudo.State.Requests.transaction shudo.State.Sql.exists_where shudo.State.Requests.transition
    shudo.State.Requests.can_move shudo.State.Sql.count_where shudo.Daemon.Authority.approval_actor
granted = refl

decide-Granted_example :
    IsRoot (peer_with 0)
    × Granted the_call the_decision approve_text
        (trim_space [])
        (expire_outstanding one_codec (codes "t1") tables_waiting)
        (decide the_call (peer_with 0) the_decision approve_text tables_waiting)
        the_response
decide-Granted_example =
    decide-Granted the_call (peer_with 0) the_decision approve_text tables_waiting the_response
      granted

peer_with-IsRoot : ¬ IsRoot (peer_with 1000)
peer_with-IsRoot h = omega (arith, h)

decide-refused_example :
    let reply = decide the_call (peer_with 1000) the_decision approve_text tables_waiting in
    (reply.tables ≡ tables_waiting)
    × (reply.starts ≡ false)
    × ((x : RpcError) × (reply.answer ≡ err x))
decide-refused_example =
    decide-refused the_call (peer_with 1000) the_decision approve_text tables_waiting
      peer_with-IsRoot

abbrev pub ask_policy : Config
ask_policy = record { version = 1; default_action = require_approval; rules = [] }

abbrev id_process : Process
id_process = record {
  pipes_open = true;
  starts = true;
  pieces =
      record {
        stream = codes "stdout";
        bytes = codes "0";
        io = record {
          disk = record { max_bytes = 1000000; sizes = some 0 ∷ none ∷ none ∷ [] };
          inserts = true;
          updates = true;
        };
      }
      ∷ [];
  ending = exited 0;
  timed_out = false;
  wait_failed = false;
}

abbrev pub the_run : RunEnv
the_run = record {
  codec = one_codec;
  hash = λ q. some the_hash;
  now = 50;
  now_text = codes "t2";
  host = two_files;
  policy_file = some ask_policy;
  eval_symlinks = λ path. none;
  allowed_environment = [];
  persisted_bytes = 1000;
  io = commits;
  end_io = commits;
  process = id_process;
}

abbrev pub id_command : Command
id_command = record {
  arguments =
      codes "__exec-fds" ∷ codes "/usr/bin/id" ∷ [] ∷ codes "0" ∷ [] ∷ codes "id" ∷ codes "-u" ∷ [];
  environment = root_environment;
  extra_files = id_file ∷ root_directory ∷ [];
}

spawned : (execute the_run false the_id tables_approved).spawned ≡ some id_command
unfolding execute get_from shudo.State.Sql.select_first shudo.Prelude.str_eq
    shudo.Daemon.Execute.is_future shudo.Daemon.Decide.hash_matches
    shudo.Daemon.Execute.approval_bound shudo.State.Approvals.approval_for
    shudo.Daemon.Execute.policy_allows shudo.Policy.load shudo.Policy.evaluate
    shudo.Daemon.Execute.prepare shudo.Integrity.open_verified_directory
    shudo.Integrity.same_directory shudo.Integrity.directory_identity open_verified_executable
    shudo.Integrity.is_regular shudo.Integrity.has_exec_bit shudo.Integrity.file_identity
    shudo.Integrity.sanitize_environment shudo.State.Approvals.begin_execution
    shudo.State.Requests.transaction shudo.State.Requests.transition shudo.Model.status_eq
    shudo.State.Requests.can_move shudo.State.Sql.count_where shudo.State.Sql.exists_where
    shudo.State.Sql.update_where
spawned = refl

execute-Cleared_example : (false ≡ false) × Cleared the_run the_id tables_approved id_command
execute-Cleared_example = execute-Cleared the_run false the_id tables_approved id_command spawned

execute-once_example :
    (execute the_run false the_id
      (run_ops one_codec [] (execute the_run false the_id tables_approved).tables)).spawned
    ≡ none
execute-once_example =
    execute-once the_run the_run false false the_id [] tables_approved id_command spawned

execute-IsPrepared_example :
    (item : StoredRequest) × (get_from one_codec tables_approved the_id ≡ ok (some item))
    × IsPrepared the_run item.request id_command
execute-IsPrepared_example =
    execute-IsPrepared the_run false the_id tables_approved id_command spawned

opened : open_verified_executable two_files id_metadata ≡ ok id_file
unfolding open_verified_executable shudo.Prelude.str_eq shudo.Integrity.is_regular
    shudo.Integrity.has_exec_bit shudo.Integrity.file_identity
opened = refl

open_verified_executable-IsVerified_example : IsVerified two_files id_metadata id_file
open_verified_executable-IsVerified_example =
    open_verified_executable-IsVerified two_files id_metadata id_file opened

-- Two submissions at a time, and three in a minute.
abbrev small : LimitConfig
small = record {
  max_concurrent_per_uid = 2;
  max_concurrent_total = 2;
  max_submissions_per_minute = 3;
  max_watchers_per_uid = 1;
  max_watchers_per_request = 1;
}

abbrev a_day : List LimitEvent
a_day =
    arrives 5 1000
    ∷ watches 1000 the_id
    ∷ arrives 6 1000
    ∷ arrives 7 1000
    ∷ leaves 1000
    ∷ arrives 70000000000 1000
    ∷ []

a_day-Possible : Possible small a_day no_limits nobody
unfolding limit_step present_step acquire_submission acquire_watcher is_limited recent_times set_uid
    set_request any
a_day-Possible = (tt, (tt, (tt, (tt, (refl, (tt, tt))))))

run_present-IsBounded_example :
    Agrees (run_limits small a_day no_limits) (run_present small a_day no_limits nobody)
    × IsBounded small (run_present small a_day no_limits nobody)
run_present-IsBounded_example = run_present-IsBounded small a_day a_day-Possible

nothing_stored : IsCounted 1000 the_id tables_approved
unfolding shudo.State.Sql.select_first shudo.Prelude.str_eq shudo.State.Output.Counted.total_bytes
nothing_stored = record {
  row = row_with approved;
  found = refl;
  counted = refl;
  bounded = omega arith;
}

drain-IsCounted_example :
    IsCounted 1000 the_id (drain the_run the_id 0 id_process.pieces tables_approved)
drain-IsCounted_example =
    drain-IsCounted the_run the_id 0 id_process.pieces tables_approved (refl, tt) nothing_stored
