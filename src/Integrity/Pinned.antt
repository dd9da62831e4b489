-- ===== src/Integrity/Pinned.antt =====
-- internal/integrity/exec_linux.go: the last step of the helper process, which is replaced by the
-- command whose files were checked.
use shudo.Prelude.{
  ◌+◌, Bool, not, ◌||◌, Option, none, some, List, ◌∷◌, ◌++◌, Bytes, codes, length, if◌then◌else◌,
  ◌==◌, is_empty, ℤ, pos, negsuc, Result, ok, err,
}
use shudo.Strings.{to_decimal}
use shudo.Config.{int_lt}

abbrev pub executable_fd : ℤ
executable_fd = pos 3

abbrev pub directory_fd : ℤ
directory_fd = pos 4

abbrev pub interpreter_fd : ℤ
interpreter_fd = pos 5

pub data ExecError : Type 0 where
  invalid_descriptor invalid_descriptors missing_interpreter chdir_failed : ExecError
  -- of the helper's own arguments
  invalid_request : ExecError

-- The call of `execve` that is made.
pub record Image : Type 0 where
  pub path : Bytes
  pub argv : List Bytes
  pub environment : List Bytes

-- `strconv.Itoa`
unfoldable pub itoa : ℤ → Bytes
unfolding to_decimal
itoa (pos n) = to_decimal n
itoa (negsuc n) = b'-' ∷ to_decimal (n + 1)

abbrev pub fd_path : ℤ → Bytes
fd_path fd = codes "/proc/self/fd/" ++ itoa fd

unfoldable pub exec_verified : ℤ → List Bytes → List Bytes → Result ExecError Image
unfolding itoa int_lt
exec_verified fd argv environment =
    if int_lt fd (pos 3) || length argv == 0
    then err invalid_descriptor
    else ok (record { path = fd_path fd; argv = argv; environment = environment })

-- An argument that may be missing, before the others.
unfoldable pub with_argument : Option Bytes → List Bytes → List Bytes
with_argument none argv = argv
with_argument (some a) argv = a ∷ argv

-- `enters` says whether `fchdir` of a descriptor succeeds.
unfoldable pub exec_pinned :
    (ℤ → Bool)
    → ℤ
    → ℤ
    → ℤ
    → Bytes
    → List Bytes
    → List Bytes
    → Bytes
    → Option Bytes
    → Result ExecError Image
unfolding exec_verified itoa with_argument is_empty int_lt
exec_pinned enters executable directory interpreter path arguments environment interpreter_path
      argument =
    if int_lt executable (pos 3) || int_lt directory (pos 3) || is_empty path
    then err invalid_descriptors
    else if not (enters directory)
    then err chdir_failed
    else if is_empty interpreter_path
    then exec_verified executable (path ∷ arguments) environment
    else if int_lt interpreter (pos 3)
    then err missing_interpreter
    else exec_verified interpreter
        (interpreter_path ∷ with_argument argument (fd_path executable ∷ arguments)) environment
