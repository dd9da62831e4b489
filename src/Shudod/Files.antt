-- ===== src/Shudod/Files.antt =====
-- `prepareDatabase` and `prepareSocket`: the directories that shudod makes or accepts.
pub mod Safe
use shudo.Prelude.{
  ℕ, Bool, true, false, not, ◌&&◌, ◌||◌, Option, none, some, List, [], ◌∷◌, ◌++◌, Bytes, codes,
  if◌then◌else◌, ◌==◌, str_eq, Result, ok, err, ◌>>=◌,
}
use shudo.Paths.{dir}
use shudo.Shudod.Chain.{
  FileInfo, Lookup, missing, lookup_failed, found, PathError, lstat_failed, unsafe_parent,
  mkdir_failed, unsafe_directory, unsafe_database_file, at_the_root, chown_failed, chmod_failed,
  not_a_socket, remove_failed, still_climbing, is_directory, is_regular_file, is_socket,
  writable_by_others, verify_directory_chain,
}

-- What `os.Lstat` finds at each path.
abbrev pub Files : Type 0
Files = Bytes → Lookup

-- The calls that change the files: `none` is an error. Modes and owners are numbers.
pub record Os : Type 0 where
  pub mkdir : Bytes → ℕ → Files → Option Files
  pub chown : Bytes → ℕ → ℕ → Files → Option Files
  pub chmod : Bytes → ℕ → Files → Option Files
  pub remove : Bytes → Files → Option Files

unfoldable pub chain : Files → Bytes → Result PathError (Unit {0})
unfolding verify_directory_chain
chain files path = elim (verify_directory_chain files path) [
  | none ↦ err still_climbing
  | some r ↦ r
]

abbrev or_failed : PathError → Option Files → Result PathError Files
or_failed e none = err e
or_failed e (some files) = ok files

-- Any error of the parents' chain is reported as one.
parent_chain : Result PathError (Unit {0}) → Result PathError (Unit {0})
parent_chain (err e) = err unsafe_parent
parent_chain (ok u) = ok tt

-- `os.Mkdir` where there is nothing yet, below a chain that is safe.
unfoldable pub made_directory : Os → ℕ → Bytes → Files → Result PathError Files
unfolding chain parent_chain dir
made_directory os mode directory files = elim (files directory) [
  | missing ↦ do
    u ← parent_chain (chain files (dir directory))
    or_failed mkdir_failed (os.mkdir directory mode files)
  | lookup_failed ↦ err lstat_failed
  | found info ↦ ok files
]

unfoldable pub check_directory : Lookup → Result PathError (Unit {0})
unfolding is_directory writable_by_others
check_directory missing = err lstat_failed
check_directory lookup_failed = err lstat_failed
check_directory (found info) =
    if not (is_directory info.kind) || not (info.uid == 0) || writable_by_others info.perm
    then err unsafe_directory
    else ok tt

-- The directory that was made or was there, with the chain above it.
unfoldable pub ready_directory : Os → ℕ → Bytes → Files → Result PathError Files
unfolding made_directory chain check_directory
ready_directory os mode directory files = do
  after ← made_directory os mode directory files
  u ← chain after directory
  v ← check_directory (after directory)
  ok after

-- Mode 0600 of root, or nothing.
unfoldable pub check_database_file : Lookup → Result PathError (Unit {0})
unfolding is_regular_file
check_database_file missing = ok tt
check_database_file lookup_failed = err lstat_failed
check_database_file (found info) =
    if not (is_regular_file info.kind) || not (info.uid == 0) || not (info.perm == 384)
    then err unsafe_database_file
    else ok tt

unfoldable pub check_each : Files → List Bytes → Result PathError (Unit {0})
unfolding check_database_file
check_each files [] = ok tt
check_each files (path ∷ paths) = do u ← check_database_file (files path); check_each files paths

abbrev pub database_files : Bytes → List Bytes
database_files path = path ∷ (path ++ codes "-wal") ∷ (path ++ codes "-shm") ∷ []

-- The directory's mode is 0700.
unfoldable pub prepare_database : Os → Bytes → Files → Result PathError Files
unfolding ready_directory check_each dir
prepare_database os path files = do
  after ← ready_directory os 448 (dir path) files
  u ← check_each after (database_files path)
  ok after

-- A socket that an earlier run left is removed, and nothing else is.
unfoldable pub cleared_socket : Os → Bytes → Files → Result PathError Files
unfolding is_socket
cleared_socket os path files = elim (files path) [
  | missing ↦ ok files
  | lookup_failed ↦ err lstat_failed
  | found info ↦
      if not (is_socket info.kind)
      then err not_a_socket
      else or_failed remove_failed (os.remove path files)
]

-- The directory's mode is 0750, and its group the socket's.
unfoldable pub prepare_socket : Os → Bytes → ℕ → Files → Result PathError Files
unfolding ready_directory cleared_socket dir str_eq
prepare_socket os path gid files = if str_eq (dir path) (codes "/") then err at_the_root else do
  made ← ready_directory os 488 (dir path) files
  owned ← or_failed chown_failed (os.chown (dir path) 0 gid made)
  guarded ← or_failed chmod_failed (os.chmod (dir path) 488 owned)
  cleared_socket os path guarded
