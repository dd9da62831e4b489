-- ===== src/Integrity/Resolve.antt =====
-- `ResolveExecutable`.
use shudo.Prelude.{
  Bool, ◌&&◌, ◌||◌, false, Option, none, some, List, [], ◌∷◌, ◌++◌, Bytes, if◌then◌else◌, ◌==◌, not,
  is_empty, contains_byte, is_abs, Result, ok, err,
}
use shudo.Paths.{join}
use shudo.Integrity.{
  FileStat, IntegrityError, open_failed, not_absolute, empty_executable, not_in_safe_path,
  is_regular, has_exec_bit, safe_path,
}

-- `strings.Split(s, ":")`; the first argument is the part so far.
unfoldable pub split_colon : Bytes → Bytes → List Bytes
split_colon part [] = part ∷ []
split_colon part (a ∷ s) =
    let cut = part ∷ split_colon [] s in
    let longer = split_colon (part ++ a ∷ []) s in if a == b':' then cut else longer

-- `os.Stat` follows links: `none` is an error.
is_program : Option FileStat → Bool
is_program none = false
is_program (some stat) = is_regular stat.mode && has_exec_bit stat.mode

-- The first directory that has the program.
unfoldable pub search_path : (Bytes → Option FileStat) → Bytes → List Bytes → Option Bytes
unfolding is_program join
search_path stat_path name [] = none
search_path stat_path name (directory ∷ directories) =
    let rest = search_path stat_path name directories in
    if is_program (stat_path (join directory name)) then some (join directory name) else rest

unfoldable pub candidate_of : (Bytes → Option FileStat) → Bytes → Bytes → Option Bytes
unfolding search_path split_colon join
candidate_of stat_path value cwd =
    if not (contains_byte b'/' value)
    then search_path stat_path value (split_colon [] safe_path)
    else if is_abs value
    then some value
    else some (join cwd value)

check_resolved : Option Bytes → Result IntegrityError Bytes
check_resolved none = err open_failed
check_resolved (some resolved) = if not (is_abs resolved) then err not_absolute else ok resolved

resolve_candidate : (Bytes → Option Bytes) → Option Bytes → Result IntegrityError Bytes
unfolding check_resolved
resolve_candidate eval_symlinks none = err not_in_safe_path
resolve_candidate eval_symlinks (some candidate) = check_resolved (eval_symlinks candidate)

unfoldable pub resolve_executable :
    (Bytes → Option Bytes) → (Bytes → Option FileStat) → Bytes → Bytes → Result IntegrityError Bytes
unfolding candidate_of resolve_candidate
resolve_executable eval_symlinks stat_path value cwd =
    if is_empty value || contains_byte 0 value
    then err empty_executable
    else resolve_candidate eval_symlinks (candidate_of stat_path value cwd)
