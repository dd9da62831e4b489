-- ===== src/Integrity/Inspect.antt =====
-- What is recorded of a request's files when it is submitted: `InspectExecutableAndInterpreter`,
-- `InspectExecutable`, `InspectInterpreter`, `InspectDirectory` and `Risk`.
pub mod RoundTrip
use shudo.Prelude.{
  ℕ, Bool, not, ◌||◌, Option, none, some, List, [], ◌∷◌, ◌++◌, ◌/◌, ◌%◌, Bytes, codes, length, any,
  if◌then◌else◌, ltb, ◌==◌, str_eq, is_abs, Result, ok, err, ◌>>=◌,
}
use shudo.Paths.{base}
use shudo.Model.{FileMetadata, WorkingDirectoryMetadata, RiskMetadata}
use shudo.Integrity.{
  FileStat, Host, IntegrityError, open_failed, out_of_range, not_absolute, nested_script,
  max_safe_integer, inspect_executable_file, directory_identity,
}
use shudo.Integrity.Shebang.{Shebang, inspect_shebang}

-- What is found of the executable: its identity, and of a script the interpreter and its argument.
pub record Inspected : Type 0 where
  pub metadata : FileMetadata
  pub interpreter : Option FileMetadata
  pub argument : Option Bytes

-- `unix.Open` of the path.
unfoldable pub open_path : Host → Bytes → Result IntegrityError FileStat
open_path h path = elim (h.open_file path) [ none ↦ err open_failed | some stat ↦ ok stat ]

unfoldable pub resolve : (Bytes → Option Bytes) → Bytes → Result IntegrityError Bytes
resolve eval_symlinks path = elim (eval_symlinks path) [
  | none ↦ err open_failed
  | some resolved ↦ ok resolved
]

-- `inspectExecutablePath` of an interpreter, which may not be a script itself.
unfoldable pub inspect_interpreter_path : Host → Bytes → ℕ → Result IntegrityError FileMetadata
unfolding open_path
inspect_interpreter_path h path max_bytes = do
  stat ← open_path h path
  metadata ← inspect_executable_file h stat path max_bytes
  script ← inspect_shebang stat.content
  elim script [ none ↦ ok metadata | some _ ↦ err nested_script ]

inspect_script :
    Host
    → (Bytes → Option Bytes)
    → ℕ
    → FileMetadata
    → Option Shebang
    → Result IntegrityError Inspected
unfolding resolve inspect_interpreter_path
inspect_script h eval_symlinks max_bytes metadata none =
    ok (record { metadata = metadata; interpreter = none; argument = none })
inspect_script h eval_symlinks max_bytes metadata (some s) = do
  resolved ← resolve eval_symlinks s.path
  interpreter ← inspect_interpreter_path h resolved max_bytes
  ok (record { metadata = metadata; interpreter = some interpreter; argument = s.argument })

-- `InspectExecutableAndInterpreter`
unfoldable pub inspect_executable_and_interpreter :
    Host → (Bytes → Option Bytes) → Bytes → ℕ → Result IntegrityError Inspected
unfolding open_path inspect_script
inspect_executable_and_interpreter h eval_symlinks path max_bytes = do
  stat ← open_path h path
  metadata ← inspect_executable_file h stat path max_bytes
  script ← inspect_shebang stat.content
  inspect_script h eval_symlinks max_bytes metadata script

-- `InspectExecutable`, without a limit
unfoldable pub inspect_executable :
    Host → (Bytes → Option Bytes) → Bytes → Result IntegrityError FileMetadata
unfolding inspect_executable_and_interpreter
inspect_executable h eval_symlinks path = do
  found ← inspect_executable_and_interpreter h eval_symlinks path 0
  ok found.metadata

-- `InspectDirectory`: the path without symbolic links (`none` is an error of filepath.EvalSymlinks),
-- what `stat` says of it, and its identity. `mode & S_IFMT == S_IFDIR` is the first test.
inspect_resolved : Bytes → Option FileStat → Result IntegrityError WorkingDirectoryMetadata
inspect_resolved path none = err open_failed
inspect_resolved path (some stat) =
    if not ((stat.mode / 4096) % 16 == 4)
      || ltb max_safe_integer stat.device
      || ltb max_safe_integer stat.inode
    then err out_of_range
    else ok (directory_identity stat path)

unfoldable pub inspect_directory :
    (Bytes → Option Bytes)
    → (Bytes → Option FileStat)
    → Bytes
    → Result IntegrityError WorkingDirectoryMetadata
unfolding inspect_resolved
inspect_directory eval_symlinks stat_path path = elim (eval_symlinks path) [
  | none ↦ err open_failed
  | some resolved ↦
      if not (is_abs resolved)
      then err not_absolute
      else inspect_resolved resolved (stat_path resolved)
]

is_one_of : List Bytes → Bytes → Bool
unfolding any
is_one_of names name = any (str_eq name) names

abbrev pub interpreters : List Bytes
interpreters =
    codes "bash"
    ∷ codes "sh"
    ∷ codes "zsh"
    ∷ codes "python"
    ∷ codes "python3"
    ∷ codes "node"
    ∷ codes "perl"
    ∷ codes "ruby"
    ∷ []

warn_if : Bool → Bytes → List Bytes
warn_if test text = if test then text ∷ [] else []

-- `Risk`; the arguments are not read.
unfoldable pub risk : Bytes → List Bytes → Bool → List (Bytes × Bytes) → RiskMetadata
unfolding is_one_of warn_if base
risk executable argv script env =
    let name = base executable in
    let interpreter = is_one_of interpreters name in
    record {
      shell = is_one_of (codes "sh" ∷ codes "bash" ∷ codes "zsh" ∷ []) name;
      interpreter = interpreter;
      script = script;
      environment_overrides = not (length env == 0);
      warnings =
          warn_if interpreter (codes "Interpreter may execute dynamic code")
          ++ warn_if script (codes "Script contents may reference mutable dependencies")
          ++ warn_if (not (length env == 0))
              (codes "Environment overrides change execution context");
    }
