-- ===== src/Shudod/Helper.antt =====
-- The helper takes its arguments apart as the daemon put them together.
use shudo.Prelude.{
  ℕ, zero, suc, ◌-◌, ltb, if◌then◌else◌, [], negsuc, ◌≡◌, refl, ap, Bool, true, false, not, Option,
  none, some, List, ◌∷◌, ◌++◌, Bytes, codes, arith, is_empty, str_eq, ℤ, pos, ok,
}
use shudo.Strings.{to_decimal}
use shudo.Config.{int_lt}
use shudo.Model.{FileMetadata, ExecutionRequest}
use mathlib.Core.Path.{subst}
use shudo.Integrity.{FileStat, open_verified_directory, root_environment}
use shudo.Integrity.Verified.{IsVerified}
use shudo.Daemon.Execute.Started.{InterpreterVerified, IsPrepared, prepare-IsPrepared}
use shudo.Integrity.Pinned.{
  Image, itoa, with_argument, fd_path, exec_verified, exec_pinned, executable_fd, directory_fd,
  interpreter_fd,
}
use shudo.Daemon.Execute.{
  RunEnv, Command, prepare, with_interpreter, helper_arguments, interpreter_path,
  interpreter_arguments,
}
use shudo.Shudod.{exec_fds, run_helper}

-- What must run: the checked executable under its name, or the checked interpreter on the checked
-- script.
unfoldable pub image_of :
    Bytes → List Bytes → Option FileMetadata → Option Bytes → List Bytes → Image
unfolding with_argument
image_of executable argv none argument environ = record {
  path = codes "/proc/self/fd/3";
  argv = executable ∷ argv;
  environment = environ;
}
image_of executable argv (some m) argument environ = record {
  path = codes "/proc/self/fd/5";
  argv = m.path ∷ with_argument argument (codes "/proc/self/fd/3" ∷ argv);
  environment = environ;
}

-- A script's interpreter has a path.
unfoldable pub has_path : Option FileMetadata → Bool
unfolding is_empty
has_path none = true
has_path (some m) = not (is_empty m.path)

exec_verified-some :
    (fd : ℤ) (a : Bytes) (argv environ : List Bytes)
    → int_lt fd (pos 3) ≡ false
    → exec_verified fd (a ∷ argv) environ
      ≡ ok (record { path = fd_path fd; argv = a ∷ argv; environment = environ })
unfolding exec_verified
exec_verified-some fd a argv environ h = rw h (ground arith)

exec_fds-interpreter :
    (enters : ℤ → Bool) (executable : Bytes) (argv environ : List Bytes) (m : Option FileMetadata)
    (argument : Option Bytes)
    → enters directory_fd ≡ true
    → is_empty executable ≡ false
    → has_path m ≡ true
    → exec_fds enters environ
        (executable ∷ interpreter_path m ∷ (interpreter_arguments argument ++ argv))
      ≡ ok (image_of executable argv m argument environ)
unfolding exec_fds exec_pinned interpreter_path interpreter_arguments image_of has_path str_eq
    int_lt to_decimal itoa with_argument
exec_fds-interpreter enters executable argv environ none none entered named found =
    rw (named, entered) (exec_verified-some executable_fd executable argv environ refl)
exec_fds-interpreter enters executable argv environ none (some a) entered named found =
    rw (named, entered) (exec_verified-some executable_fd executable argv environ refl)
exec_fds-interpreter enters executable argv environ (some m) none entered named found =
    let path : is_empty m.path ≡ false = ground arith in
    rw (named, entered, path) (exec_verified-some interpreter_fd m.path _ environ refl)
exec_fds-interpreter enters executable argv environ (some m) (some a) entered named found =
    let path : is_empty m.path ≡ false = ground arith in
    rw (named, entered, path) (exec_verified-some interpreter_fd m.path _ environ refl)

-- The file that a descriptor of the child has: os/exec makes the entry `i` of `ExtraFiles` the
-- descriptor `3 + i`.
unfoldable pub file_at : List FileStat → ℕ → Option FileStat
file_at [] i = none
file_at (file ∷ files) zero = some file
file_at (file ∷ files) (suc i) = file_at files i

unfoldable pub opened_at : Command → ℤ → Option FileStat
unfolding file_at
opened_at command (negsuc n) = none
opened_at command (pos n) = if ltb n 3 then none else file_at command.extra_files (n - 3)

-- What is executed, for a command without an interpreter and for a script with one: the descriptors
-- that are named are those of the files that were recorded.
pub data Executes (e : RunEnv) (q : ExecutionRequest) (command : Command) (image : Image)
    : Type 0 where
  directly :
      (fd : ℤ) (file : FileStat)
      → q.interpreter_metadata ≡ none
      → opened_at command fd ≡ some file
      → IsVerified e.host q.executable_metadata file
      → image.path ≡ fd_path fd
      → image.argv ≡ q.execution.executable ∷ q.execution.argv
      → Executes e q command image
  interpreted :
      (m : FileMetadata) (fd script : ℤ) (file script_file : FileStat)
      → q.interpreter_metadata ≡ some m
      → opened_at command fd ≡ some file
      → IsVerified e.host m file
      → image.path ≡ fd_path fd
      → opened_at command script ≡ some script_file
      → IsVerified e.host q.executable_metadata script_file
      → image.argv
        ≡ m.path ∷ with_argument q.interpreter_argument (fd_path script ∷ q.execution.argv)
      → Executes e q command image

abbrev image_for : RunEnv → ExecutionRequest → Image
image_for e q =
    image_of q.execution.executable q.execution.argv q.interpreter_metadata q.interpreter_argument
      root_environment

image_for-environment :
    (e : RunEnv) (q : ExecutionRequest) (m : Option FileMetadata)
    → q.interpreter_metadata ≡ m
    → (image_for e q).environment ≡ root_environment
unfolding image_of
image_for-environment e q none found = rw found refl
image_for-environment e q (some m) found = rw found refl

image_for-Executes :
    (e : RunEnv) (q : ExecutionRequest) (command : Command) (m : Option FileMetadata)
    → q.interpreter_metadata ≡ m
    → IsPrepared e q command
    → Executes e q command (image_for e q)
unfolding opened_at file_at with_interpreter image_of itoa to_decimal
image_for-Executes e q command none found p =
    directly executable_fd p.executable_file found (rw p.extra_files refl) p.executable
      (rw found refl) (rw found refl)
image_for-Executes e q command (some m) found p =
    let (stat, there, is) : InterpreterVerified e.host (some m) p.interpreter_file =
      subst (λ x. InterpreterVerified e.host x p.interpreter_file) found p.interpreter in
    interpreted m interpreter_fd executable_fd stat p.executable_file found
      (rw (p.extra_files, there) refl) is (rw found refl) (rw p.extra_files refl) p.executable
      (rw found refl)

-- Let `enters` be any test for which the recorded directory, as its check opened it, can be entered,
-- whether or not another file can. Then the helper that gets the arguments, the environment and the files of a prepared command executes the recorded
-- executable under its own name with the command's arguments, or for a script the recorded
-- interpreter with its argument on the script's descriptor, in the fixed environment: each descriptor
-- that it names is that of a file with the recorded identity. It holds where neither the executable's
-- nor the interpreter's path is empty.
pub run_helper-prepare :
    (e : RunEnv) (q : ExecutionRequest) (command : Command) (enters : Option FileStat → Bool)
    (program : Bytes)
    → prepare e q ≡ ok command
    → ((d : FileStat)
        → open_verified_directory e.host q.working_directory_metadata ≡ ok d
        → enters (some d) ≡ true)
    → is_empty q.execution.executable ≡ false
    → has_path q.interpreter_metadata ≡ true
    → (image : Image) × (run_helper
          (λ fd. enters (opened_at command fd))
          command.environment
          (program ∷ command.arguments)
        ≡ some (ok image))
      × (image.environment ≡ root_environment)
      × Executes e q command image
unfolding helper_arguments run_helper opened_at file_at image_of
run_helper-prepare e q command enters program ready entered named found =
    let p = prepare-IsPrepared e q command ready in
    let at_directory : enters (opened_at command directory_fd) ≡ true =
      rw p.extra_files (entered p.directory_file p.directory) in
    (
      image_for e q,
      rw (p.arguments, p.environment)
          (ap some (
            exec_fds-interpreter (λ fd. enters (opened_at command fd)) q.execution.executable
              q.execution.argv root_environment q.interpreter_metadata q.interpreter_argument
              at_directory named found)),
      image_for-environment e q q.interpreter_metadata refl,
      image_for-Executes e q command q.interpreter_metadata refl p,
    )
