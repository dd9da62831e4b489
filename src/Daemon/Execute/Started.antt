-- ===== src/Daemon/Execute/Started.antt =====
-- What runs: the arguments, the environment and the files of a command that is started.
use shudo.Prelude.{◌≡◌, ◌∷◌, refl, Option, none, some, Bytes, arith, Result, ok, >>=-eq-ok, Bool}
use shudo.Model.{FileMetadata, ExecutionRequest}
use shudo.Integrity.{
  FileStat, Host, IntegrityError, open_verified_executable, open_verified_directory,
  sanitize_environment, root_environment,
}
use shudo.Integrity.Verified.{
  IsVerified, open_verified_executable-IsVerified, sanitize_environment-ok,
}
use shudo.State.Tables.{Tables, StoredRequest}
use shudo.State.Requests.{get_from}
use shudo.Daemon.Execute.{
  RunEnv, Command, with_interpreter, open_interpreter, helper_arguments, prepare, execute,
}
use shudo.Daemon.Execute.Gate.{execute-Cleared}

-- A script runs through the interpreter that was recorded, any other command without one.
abbrev pub InterpreterVerified : Host → Option FileMetadata → Option FileStat → Type 0
InterpreterVerified h none file = file ≡ none
InterpreterVerified h (some m) file = (stat : FileStat) × (file ≡ some stat) × IsVerified h m stat

pub record IsPrepared (e : RunEnv) (q : ExecutionRequest) (command : Command) : Type 0 where
  pub arguments : command.arguments ≡ helper_arguments q
  pub environment : command.environment ≡ root_environment
  pub executable_file : FileStat
  pub executable : IsVerified e.host q.executable_metadata executable_file
  pub directory_file : FileStat
  pub directory : open_verified_directory e.host q.working_directory_metadata ≡ ok directory_file
  pub interpreter_file : Option FileStat
  pub interpreter : InterpreterVerified e.host q.interpreter_metadata interpreter_file
  pub extra_files :
      command.extra_files ≡ executable_file ∷ directory_file ∷ with_interpreter interpreter_file

open_interpreter-ok :
    (h : Host) (m : Option FileMetadata) (file : Option FileStat)
    → open_interpreter h m ≡ ok file
    → InterpreterVerified h m file
unfolding open_interpreter
open_interpreter-ok h none file e = ground arith
open_interpreter-ok h (some m) file e =
    let (stat, opened, is) = >>=-eq-ok (open_verified_executable h m) _ e in
    (stat, ground arith, open_verified_executable-IsVerified h m stat opened)

pub prepare-IsPrepared :
    (e : RunEnv) (q : ExecutionRequest) (command : Command)
    → prepare e q ≡ ok command
    → IsPrepared e q command
unfolding prepare
prepare-IsPrepared e q command h =
    let (directory, d, h') =
      >>=-eq-ok (open_verified_directory e.host q.working_directory_metadata) _ h in
    let (executable, x, h'') =
      >>=-eq-ok (open_verified_executable e.host q.executable_metadata) _ h' in
    let (interpreter, i, h''') = >>=-eq-ok (open_interpreter e.host q.interpreter_metadata) _ h'' in
    let (environment, v, is) =
      >>=-eq-ok (sanitize_environment q.execution.env e.allowed_environment) _ h''' in
    rw (← prepared_eq is) (record {
      arguments = refl;
      environment = sanitize_environment-ok q.execution.env e.allowed_environment environment v;
      executable_file = executable;
      directory_file = directory;
      interpreter_file = interpreter;
      extra_files = refl;
      executable = open_verified_executable-IsVerified e.host q.executable_metadata executable x;
      directory = d;
      interpreter = open_interpreter-ok e.host q.interpreter_metadata interpreter i;
    })
  where
    prepared_eq : {a b : Command} → ◌≡◌ {A = Result IntegrityError Command} (ok a) (ok b) → a ≡ b
    prepared_eq p = cc

-- A command that `execute` starts has the arguments of the stored request, the fixed environment,
-- and as its extra files, in this order, the very files that the request recorded: the executable, the working directory, and for a
-- script its interpreter.
pub execute-IsPrepared :
    (e : RunEnv) (loaded : Bool) (id : Bytes) (t : Tables) (command : Command)
    → (execute e loaded id t).spawned ≡ some command
    → (item : StoredRequest) × (get_from e.codec t id ≡ ok (some item))
      × IsPrepared e item.request command
execute-IsPrepared e loaded id t command h =
    let (free, c) = execute-Cleared e loaded id t command h in
    (c.item, c.loaded, prepare-IsPrepared e c.item.request command c.verified)
