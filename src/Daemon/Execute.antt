-- ===== src/Daemon/Execute.antt =====
-- `execute`: every check is made again, the approval is used, and the command runs. The output of
-- both pipes comes as one sequence of pieces, in the order in which `capture` was locked.
pub mod Gate
pub mod Once
pub mod Started
pub mod Captured
pub mod Serviced
pub mod Succeeds
use shudo.Prelude.{
  ℕ, ◌+◌, Bool, true, false, not, ◌&&◌, ◌||◌, Option, none, some, List, [], ◌∷◌, ◌++◌, Bytes, codes,
  length, if◌then◌else◌, ltb, ◌==◌, str_eq, Result, ok, err, ◌>>=◌,
}
use shudo.Model.{approved, expired, policy_rejected, FileMetadata, ExecutionRequest, Approval}
use shudo.Integrity.{
  FileStat, Host, IntegrityError, open_verified_executable, open_verified_directory,
  sanitize_environment,
}
use shudo.Policy
use shudo.Policy.{Config, PolicyError}
use shudo.State.Tables.{Codec, Tables, StoredRequest, StoreError}
use shudo.State.Requests.{TxIo, Outcome, get_from, store_transition}
use shudo.State.Approvals.{approve_text, approval_for, begin_execution, finish_execution}
use shudo.State.Output.{AppendIo, append_output}
use shudo.State.Startup.{record_security_event}
use shudo.Daemon.Authority.{equal}
use shudo.Daemon.Decide.{hash_matches}

-- How a process ended: with an exit status, by a signal, or without a state to read.
pub data ProcessEnd : Type 0 where
  exited : ℕ → ProcessEnd
  signaled : Bytes → ProcessEnd
  unknown : ProcessEnd

pub record Piece : Type 0 where
  pub stream : Bytes
  pub bytes : Bytes
  pub io : AppendIo

-- What the operating system makes of the command.
pub record Process : Type 0 where
  pub pipes_open : Bool
  pub starts : Bool
  pub pieces : List Piece
  pub ending : ProcessEnd
  pub timed_out : Bool
  pub wait_failed : Bool

-- What one run finds outside: the clock, the files, the policy file as decoded, the configuration
-- and the fate of its transactions.
pub record RunEnv : Type 0 where
  pub codec : Codec
  pub hash : ExecutionRequest → Option Bytes
  pub now : ℕ
  pub now_text : Bytes
  pub host : Host
  pub policy_file : Option Config
  pub eval_symlinks : Bytes → Option Bytes
  pub allowed_environment : List Bytes
  pub persisted_bytes : ℕ
  pub io : TxIo
  pub end_io : TxIo
  pub process : Process

-- The command that is started: its arguments, its environment and the files of `cmd.ExtraFiles`, in
-- their order.
pub record Command : Type 0 where
  pub arguments : List Bytes
  pub environment : List Bytes
  pub extra_files : List FileStat

pub record Run : Type 0 where
  pub tables : Tables
  pub spawned : Option Command

abbrev idle : Tables → Run
idle t = record { tables = t; spawned = none }

-- The request does not run: `Transition(requestID, PolicyRejected, Approved)`, whose error is
-- ignored.
reject : RunEnv → Bytes → Tables → Tables
reject e id t = (store_transition e.codec e.io id policy_rejected (some approved) t).1

reject_event : RunEnv → Bytes → StoredRequest → Bytes → Bytes → Tables → Tables
unfolding reject
reject_event e id item kind detail t =
    record_security_event kind id item.request_hash detail e.now_text (reject e id t)

unfoldable pub is_future : Option ℕ → ℕ → Bool
is_future none now = false
is_future (some expiry) now = ltb now expiry

-- The stored decision approves this request with this hash.
unfoldable pub approval_bound : StoredRequest → Result StoreError (Option Approval) → Bool
unfolding equal
approval_bound item (err e) = false
approval_bound item (ok none) = false
approval_bound item (ok (some a)) =
    str_eq a.decision approve_text
    && equal a.request_id item.request.request_id
    && equal a.request_hash item.request_hash

-- The second evaluation of the policy, and the environment, which must be empty.
unfoldable pub policy_allows : RunEnv → StoredRequest → Result PolicyError Config → Bool
policy_allows e item (err x) = false
policy_allows e item (ok config) = not (
    str_eq
      (Policy.evaluate e.eval_symlinks config (record {
        executable = item.request.execution.executable;
        argv = item.request.execution.argv;
        cwd = item.request.execution.cwd;
        uid = item.request.requester.uid;
      }))
      Policy.deny
    || not (length item.request.execution.env == 0))

unfoldable pub open_interpreter :
    Host → Option FileMetadata → Result IntegrityError (Option FileStat)
open_interpreter h none = ok none
open_interpreter h (some m) = do file ← open_verified_executable h m; ok (some file)

unfoldable pub interpreter_path : Option FileMetadata → Bytes
interpreter_path none = []
interpreter_path (some m) = m.path

unfoldable pub interpreter_arguments : Option Bytes → List Bytes
interpreter_arguments none = codes "0" ∷ [] ∷ []
interpreter_arguments (some a) = codes "1" ∷ a ∷ []

-- The arguments of the helper, `shudod __exec-fds`.
unfoldable pub helper_arguments : ExecutionRequest → List Bytes
unfolding interpreter_path interpreter_arguments
helper_arguments q =
    codes "__exec-fds"
    ∷ q.execution.executable
    ∷ interpreter_path q.interpreter_metadata
    ∷ (interpreter_arguments q.interpreter_argument ++ q.execution.argv)

-- The interpreter's file is appended where there is one.
unfoldable pub with_interpreter : Option FileStat → List FileStat
with_interpreter none = []
with_interpreter (some file) = file ∷ []

-- The descriptors that were checked, and the environment.
unfoldable pub prepare : RunEnv → ExecutionRequest → Result IntegrityError Command
unfolding open_interpreter helper_arguments with_interpreter
prepare e q = do
  directory ← open_verified_directory e.host q.working_directory_metadata
  executable ← open_verified_executable e.host q.executable_metadata
  interpreter ← open_interpreter e.host q.interpreter_metadata
  environment ← sanitize_environment q.execution.env e.allowed_environment
  ok (record {
    arguments = helper_arguments q;
    environment = environment;
    extra_files = executable ∷ directory ∷ with_interpreter interpreter;
  })

-- Each piece is stored under the next sequence number; an error of the store is ignored.
unfoldable pub drain : RunEnv → Bytes → ℕ → List Piece → Tables → Tables
drain e id sequence [] t = t
drain e id sequence (p ∷ pieces) t =
    drain e id (sequence + 1) pieces
      (append_output e.codec p.io id sequence p.stream p.bytes e.persisted_bytes t).1

unfoldable pub exit_code : Process → Option ℕ
exit_code p = elim p.ending [ exited code ↦ some code | _ ↦ if p.wait_failed then none else some 0 ]

unfoldable pub end_signal : Process → Bytes
end_signal p =
    if p.timed_out then codes "EXECUTION_TIMEOUT" else elim p.ending [ signaled s ↦ s | _ ↦ [] ]

finish : RunEnv → Bytes → Option ℕ → Bytes → Tables → Tables
finish e id code signal t = (finish_execution e.codec e.end_io id code signal e.now_text t).1

-- After `BeginExecution`; 127 says that the command did not start.
run_process : RunEnv → Bytes → Command → Tables → Run
unfolding drain exit_code end_signal finish
run_process e id command t =
    if not e.process.pipes_open || not e.process.starts
    then idle (finish e id (some 127) [] t)
    else record {
      tables =
          finish e id (exit_code e.process) (end_signal e.process)
            (drain e id 0 e.process.pieces t);
      spawned = some command;
    }

after_begin : RunEnv → Bytes → Command → Outcome → Run
unfolding run_process
after_begin e id command (err x, t) = idle t
after_begin e id command (ok u, t) = run_process e id command t

start_prepared : RunEnv → Bytes → Result IntegrityError Command → Tables → Run
unfolding after_begin
start_prepared e id (err x) t = idle (reject e id t)
start_prepared e id (ok command) t =
    after_begin e id command (begin_execution e.codec e.io id (some approved) e.now_text t)

execute_item : RunEnv → Bytes → StoredRequest → Tables → Run
unfolding reject reject_event start_prepared
execute_item e id item t =
    if not (is_future (e.codec.parse_time item.request.expires_at) e.now)
    then idle (store_transition e.codec e.io id expired (some approved) t).1
    else if not (hash_matches e.hash item)
    then idle (
        reject_event e id item (codes "request.integrity-failed")
          (codes "Persisted request hash mismatch before execution") t)
    else if not (approval_bound item (approval_for e.codec t id))
    then idle (
        reject_event e id item (codes "approval.integrity-failed")
          (codes "Local approval binding mismatch") t)
    else if not (policy_allows e item (Policy.load e.policy_file))
    then idle (reject e id t)
    else start_prepared e id (prepare e item.request) t

execute_loaded : RunEnv → Bytes → Result StoreError (Option StoredRequest) → Tables → Run
unfolding execute_item
execute_loaded e id (err x) t = idle t
execute_loaded e id (ok none) t = idle t
execute_loaded e id (ok (some item)) t = execute_item e id item t

-- `loaded` says that another goroutine is executing the same request.
unfoldable pub execute : RunEnv → Bool → Bytes → Tables → Run
unfolding execute_loaded
execute e loaded id t = if loaded then idle t else execute_loaded e id (get_from e.codec t id) t
