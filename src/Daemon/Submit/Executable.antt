-- ===== src/Daemon/Submit/Executable.antt =====
-- What is submitted can be started: the checks of an execution accept what a submission records.
use shudo.Prelude.{
  ◌≡◌, ◌∷◌, refl, ap, ◌∙◌, Option, none, some, [], Bytes, arith, Result, ok, err, >>=-eq-ok,
  err_and_ok, ok_inj, length,
}
use mathlib.Core.Path.{subst}
use shudo.Model.{FileMetadata, Requester, ExecutionRequest}
use shudo.Integrity.{FileStat, Host, sanitize_environment, root_environment}
use shudo.Integrity.Resolve.{resolve_executable}
use shudo.Integrity.Inspect.{inspect_executable_and_interpreter, inspect_directory}
use shudo.Integrity.Inspect.RoundTrip.{
  DirectoryFound, inspect_directory-DirectoryFound, open_verified_directory-DirectoryFound,
  IsOpened, AllOpened, inspect_executable_and_interpreter-AllOpened,
}
use shudo.Policy
use shudo.Daemon.Authority.{RpcError, invalid_argument, failed_precondition, internal}
use shudo.Daemon.Submission.{SubmitRequest, validate_submit}
use shudo.Daemon.Execute.{
  RunEnv, Command, prepare, with_interpreter, open_interpreter, helper_arguments,
}
use shudo.Daemon.Submit.{
  SubmitEnv, Prepared, or_rpc, some_or, build_request, prepare_request, limit_of,
}

or_rpc-ok {ℓ} :
    {E : Type 0} {A : Type ℓ} (x : RpcError) (found : Result E A) (a : A)
    → or_rpc x found ≡ ok a
    → found ≡ ok a
or_rpc-ok x (err y) a h = err_and_ok h
or_rpc-ok x (ok b) a h = ap ok (ok_inj h)

-- What a prepared request took from the files.
pub record Recorded (e : SubmitEnv) (input : SubmitRequest) (q : ExecutionRequest) : Type 0 where
  pub executable : IsOpened e.host q.executable_metadata
  pub interpreter : AllOpened e.host q.interpreter_metadata
  pub directory : DirectoryFound e.stat_path q.working_directory_metadata
  pub environment : q.execution.env ≡ input.env

prepare_request-Recorded :
    (e : SubmitEnv) (actor : Requester) (input : SubmitRequest) (p : Prepared)
    → prepare_request e actor input ≡ ok p
    → Recorded e input p.request
unfolding prepare_request build_request
prepare_request-Recorded e actor input p h =
    let (executable, a, h1) =
      >>=-eq-ok
        (or_rpc invalid_argument
          (resolve_executable e.eval_symlinks e.stat_path input.executable input.cwd))
        _ h in
    let inspected =
      inspect_executable_and_interpreter e.host e.eval_symlinks executable
        (limit_of e.config.max_executable_bytes) in
    let (found, b, h2) = >>=-eq-ok (or_rpc invalid_argument inspected) _ h1 in
    let at_directory = inspect_directory e.eval_symlinks e.stat_path input.cwd in
    let (directory, c, h3) = >>=-eq-ok (or_rpc invalid_argument at_directory) _ h2 in
    let (policy, d, h4) = >>=-eq-ok (or_rpc failed_precondition (Policy.load e.policy_file)) _ h3 in
    let (id, i, h5) = >>=-eq-ok (some_or internal e.uuid) _ h4 in
    let (nonce, j, h6) = >>=-eq-ok (some_or internal e.nonce) _ h5 in
    let (hash, k, h7) = >>=-eq-ok (some_or internal (e.hash _)) _ h6 in
    let (opened, all) =
      inspect_executable_and_interpreter-AllOpened _ _ _ _ found
        (or_rpc-ok invalid_argument inspected found b) in
    subst (λ (x : Prepared). Recorded e input x.request) (ok_inj h7)
      (record {
        executable = opened;
        interpreter = all;
        directory =
            inspect_directory-DirectoryFound _ _ _ directory
              (or_rpc-ok invalid_argument at_directory directory c);
        environment = refl;
      })

-- A valid request sets no variable.
validate_submit-environment :
    (input : SubmitRequest) → validate_submit input ≡ ok tt → length input.env ≡ 0
unfolding validate_submit
validate_submit-environment input h = ground arith

open_interpreter-AllOpened :
    (h : Host) (m : Option FileMetadata)
    → AllOpened h m
    → (file : Option FileStat) × (open_interpreter h m ≡ ok file)
unfolding open_interpreter
open_interpreter-AllOpened h none all = (none, refl)
open_interpreter-AllOpened h (some m) (stat, e) = (some stat, rw e refl)

-- A valid message from which `Submit` prepared a request can be executed: as long as the files are
-- those of the submission, a directory opens as it was found, and no variables are allowed, the
-- checks before an execution succeed, and give the helper's arguments of the request and root's
-- environment.
pub prepare_request-prepare :
    (e : SubmitEnv) (actor : Requester) (input : SubmitRequest) (p : Prepared) (x : RunEnv)
    → validate_submit input ≡ ok tt
    → prepare_request e actor input ≡ ok p
    → x.host ≡ e.host
    → ((path : Bytes) → e.host.open_directory path ≡ e.stat_path path)
    → x.allowed_environment ≡ []
    → (command : Command) × (prepare x p.request ≡ ok command)
      × (command.arguments ≡ helper_arguments p.request)
      × (command.environment ≡ root_environment)
unfolding prepare sanitize_environment
prepare_request-prepare e actor input p x valid ready same_files one_directory plain =
    let r = prepare_request-Recorded e actor input p ready in
    let (executable, a) = r.executable in
    let (interpreter, b) =
      open_interpreter-AllOpened e.host p.request.interpreter_metadata r.interpreter in
    let c =
      open_verified_directory-DirectoryFound e.host e.stat_path p.request.working_directory_metadata
        r.directory (one_directory p.request.working_directory_metadata.path) in
    let empty : length p.request.execution.env ≡ 0 =
      ap length r.environment ∙ validate_submit-environment input valid in
    (
      record {
        arguments = helper_arguments p.request;
        environment = root_environment;
        extra_files = executable ∷ r.directory.stat ∷ with_interpreter interpreter;
      },
      rw (same_files, c, a, b, plain, empty) refl,
      refl,
      refl,
    )
