-- ===== src/Shudod.antt =====
-- apps/daemon/cmd/shudod/main.go: the program of the daemon. It is also the helper that
-- `Daemon.Execute` starts with open descriptors.
pub mod Helper
pub mod Chain
pub mod Files
pub mod Serve
use shudo.Prelude.{
  ℕ, zero, suc, ◌/◌, ◌%◌, Bool, true, false, not, ◌||◌, ◌&&◌, Option, none, some, List, [], ◌∷◌,
  ◌++◌, Bytes, codes, if◌then◌else◌, ◌==◌, is_empty, is_abs, str_eq, ℤ, pos, negsuc, Result, ok,
  err, ◌>>=◌,
}
use shudo.Paths.{clean}
use shudo.Integrity.Pinned.{
  ExecError, invalid_request, Image, exec_verified, exec_pinned, executable_fd, directory_fd,
  interpreter_fd,
}

-- `__exec-fds`: the executable, the interpreter or nothing, whether there is an argument of it, the
-- argument, and the arguments of the command.
unfoldable pub exec_fds : (ℤ → Bool) → List Bytes → List Bytes → Result ExecError Image
unfolding exec_pinned is_empty
exec_fds enters environ (executable ∷ interpreter ∷ has ∷ argument ∷ arguments) =
    if not (str_eq has (codes "0")) && not (str_eq has (codes "1"))
    then err invalid_request
    else exec_pinned enters executable_fd directory_fd
        (if is_empty interpreter then negsuc 0 else interpreter_fd) executable arguments environ
        interpreter (if str_eq has (codes "1") then some argument else none)
exec_fds enters environ _ = err invalid_request

-- `__exec-fd`
unfoldable pub exec_fd : List Bytes → List Bytes → Result ExecError Image
unfolding exec_verified
exec_fd environ [] = err invalid_request
exec_fd environ (a ∷ arguments) = exec_verified (pos 3) (a ∷ arguments) environ

-- The head of `run`, on `os.Args`: `none` says that the program is the daemon.
unfoldable pub run_helper : (ℤ → Bool) → List Bytes → List Bytes → Option (Result ExecError Image)
unfolding exec_fds exec_fd str_eq
run_helper enters environ (program ∷ command ∷ arguments) =
    if str_eq command (codes "__exec-fds")
    then some (exec_fds enters environ arguments)
    else if str_eq command (codes "__exec-fd")
    then some (exec_fd environ arguments)
    else none
run_helper enters environ _ = none
