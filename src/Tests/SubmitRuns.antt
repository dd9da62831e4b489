-- ===== src/Tests/SubmitRuns.antt =====
-- A submission of `/usr/bin/id` by the user 1000, and what its execution finds.
use shudo.Prelude.{
  ℕ, ◌≡◌, refl, Bool, true, false, Option, none, some, List, [], ◌∷◌, Bytes, codes, str_eq,
  if◌then◌else◌, Result, ok, err,
}
use shudo.Model.{waiting}
use shudo.Policy.{Config, require_approval}
use shudo.Integrity.{FileStat, root_environment}
use shudo.Integrity.Inspect.{Inspected, inspect_executable_and_interpreter}
use shudo.Integrity.Inspect.RoundTrip.{
  IsOpened, AllOpened, inspect_executable_and_interpreter-AllOpened,
}
use shudo.Config.{defaults}
use shudo.State.Tables.{Tables}
use shudo.Daemon.Authority.{Peer, credentials, requester}
use shudo.Daemon.Limits.Admission.{no_limits}
use shudo.Daemon.Submission.{SubmitRequest, validate_submit}
use shudo.Daemon.Submit.{SubmitEnv, SubmitResponse, Prepared, Service, submit, prepare_request}
use shudo.Daemon.Submit.Stored.{Submitted, submit-Submitted}
use shudo.Daemon.Submit.Executable.{prepare_request-prepare}
use shudo.Daemon.Execute.{RunEnv, Command, prepare, helper_arguments, unknown}
use shudo.Tests.Sample.{
  the_id, the_hash, the_request, id_metadata, two_files, one_codec, commits, tables_waiting,
}

abbrev pub the_submission : SubmitEnv
the_submission = record {
  codec = one_codec;
  hash = λ q. some the_hash;
  host = two_files;
  eval_symlinks = λ path. some path;
  stat_path = two_files.open_directory;
  policy_file = some (record { version = 1; default_action = require_approval; rules = [] });
  config = defaults;
  now = 1000;
  now_text = codes "t0";
  expiry_text = λ timeout. codes "t9";
  uuid = some the_id;
  nonce = some (codes "n");
  disk = record { max_bytes = 1000000; sizes = some 0 ∷ [] };
  io = commits;
}

abbrev pub id_message : SubmitRequest
id_message = record {
  executable = codes "/usr/bin/id";
  argv = codes "id" ∷ codes "-u" ∷ [];
  cwd = codes "/";
  env = [];
  reason = codes "who am I";
  timeout_ms = 60000;
}

abbrev pub the_caller : Peer
the_caller =
    credentials
      (record { uid = 1000; gid = 1000; pid = 42; username = codes "ada"; group_name = [] })

abbrev no_tables : Tables
no_tables = record tables_waiting { requests = [] }

abbrev pub idle_service : Service
idle_service = record { tables = no_tables; limits = no_limits }

abbrev the_answer : SubmitResponse
the_answer = record { request_id = the_id; request_hash = the_hash; status = waiting }

prepared :
    prepare_request the_submission the_request.requester id_message
    ≡ ok (record { request = the_request; hash = the_hash; action = require_approval })
unfolding prepare_request shudo.Integrity.Resolve.resolve_executable shudo.Prelude.contains_byte
    shudo.Integrity.Inspect.inspect_executable_and_interpreter str_eq
    shudo.Integrity.inspect_executable_file shudo.Integrity.is_regular shudo.Integrity.has_exec_bit
    shudo.Integrity.Shebang.inspect_shebang shudo.Prelude.has_prefix
    shudo.Integrity.Inspect.inspect_directory shudo.Policy.load shudo.Integrity.directory_identity
    shudo.Integrity.file_identity shudo.Integrity.Inspect.risk shudo.Policy.evaluate
    shudo.Strings.trim_space
prepared = refl

valid : validate_submit id_message ≡ ok tt
unfolding validate_submit shudo.Prelude.is_empty shudo.Prelude.contains_byte shudo.Prelude.is_abs
    shudo.Strings.trim_space
valid = refl

answered : (submit the_submission the_caller id_message idle_service).0 ≡ ok the_answer
unfolding prepare_request shudo.Integrity.Resolve.resolve_executable shudo.Prelude.contains_byte
    shudo.Integrity.Inspect.inspect_executable_and_interpreter str_eq
    shudo.Integrity.inspect_executable_file shudo.Integrity.is_regular shudo.Integrity.has_exec_bit
    shudo.Integrity.Shebang.inspect_shebang shudo.Prelude.has_prefix
    shudo.Integrity.Inspect.inspect_directory shudo.Policy.load shudo.Integrity.directory_identity
    shudo.Integrity.file_identity shudo.Integrity.Inspect.risk shudo.Policy.evaluate
    shudo.Strings.trim_space submit requester validate_submit shudo.Prelude.is_empty
    shudo.Prelude.is_abs shudo.Daemon.Limits.acquire_submission shudo.Daemon.Submit.submit_admitted
    shudo.Daemon.Submit.too_many shudo.Config.int_lt shudo.State.Listing.outstanding_counts
    shudo.State.Sql.count_where shudo.State.Requests.expire_outstanding shudo.State.Sql.update_where
    shudo.State.Requests.create shudo.State.Requests.has_capacity shudo.State.Sql.exists_where
    shudo.State.Requests.store_transition shudo.State.Requests.transaction
    shudo.State.Requests.transition shudo.State.Requests.get_from shudo.State.Sql.select_first
    shudo.State.Requests.can_move shudo.Model.status_eq shudo.State.Requests.unexpected
answered = refl

submit-Submitted_example :
    Submitted the_submission the_caller id_message idle_service the_answer
      (submit the_submission the_caller id_message idle_service).1
submit-Submitted_example =
    submit-Submitted the_submission the_caller id_message idle_service the_answer answered

-- The execution finds the same files.
abbrev pub later_run : RunEnv
later_run = record {
  codec = one_codec;
  hash = λ q. some the_hash;
  now = 50;
  now_text = codes "t2";
  host = two_files;
  policy_file = the_submission.policy_file;
  eval_symlinks = λ path. some path;
  allowed_environment = [];
  persisted_bytes = 1000;
  io = commits;
  end_io = commits;
  process = record {
    pipes_open = true;
    starts = true;
    pieces = [];
    ending = unknown;
    timed_out = false;
    wait_failed = false;
  };
}

prepare_request-prepare_example :
    (command : Command) × (prepare later_run the_request ≡ ok command)
    × (command.arguments ≡ helper_arguments the_request)
    × (command.environment ≡ root_environment)
prepare_request-prepare_example =
    prepare_request-prepare the_submission the_request.requester id_message
      (record { request = the_request; hash = the_hash; action = require_approval }) later_run valid
      prepared refl (λ path. refl) refl

abbrev found_id : Inspected
found_id = record { metadata = id_metadata; interpreter = none; argument = none }

inspected :
    inspect_executable_and_interpreter two_files (λ path. some path) (codes "/usr/bin/id") 268435456
    ≡ ok found_id
unfolding inspect_executable_and_interpreter str_eq shudo.Integrity.inspect_executable_file
    shudo.Integrity.is_regular shudo.Integrity.has_exec_bit shudo.Integrity.Shebang.inspect_shebang
    shudo.Prelude.has_prefix shudo.Integrity.file_identity
inspected = refl

inspect_executable_and_interpreter-AllOpened_example :
    IsOpened two_files id_metadata × AllOpened two_files none
inspect_executable_and_interpreter-AllOpened_example =
    inspect_executable_and_interpreter-AllOpened two_files (λ path. some path) (codes "/usr/bin/id")
      268435456 found_id inspected
