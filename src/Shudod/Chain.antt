-- ===== src/Shudod/Chain.antt =====
-- `verifyDirectoryChain` and `verifyRootFile`: who can replace a path that was checked.
pub mod Ends
use shudo.Prelude.{
  ℕ, zero, suc, ◌+◌, ◌/◌, ◌%◌, Bool, not, ◌||◌, ◌&&◌, Option, none, some, Bytes, codes, length,
  if◌then◌else◌, ◌==◌, is_abs, str_eq, Result, ok, err, true, false,
}
use shudo.Paths.{clean, dir}

pub data FileKind : Type 0 where
  directory regular symlink socket other_kind : FileKind

-- What `os.Lstat` says: the kind, the nine permission bits, the sticky bit and the owner.
pub record FileInfo : Type 0 where
  pub kind : FileKind
  pub perm : ℕ
  pub sticky : Bool
  pub uid : ℕ

pub data Lookup : Type 0 where
  missing lookup_failed : Lookup
  found : FileInfo → Lookup

pub data PathError : Type 0 where
  lstat_failed not_root_directory unsafe_ancestor not_absolute unsafe_file : PathError
  unsafe_parent mkdir_failed unsafe_directory unsafe_database_file : PathError
  at_the_root chown_failed chmod_failed not_a_socket remove_failed : PathError
  -- not an answer: the loop over the ancestors goes on
  still_climbing : PathError

unfoldable pub is_directory : FileKind → Bool
is_directory directory = true
is_directory _ = false

unfoldable pub is_regular_file : FileKind → Bool
is_regular_file regular = true
is_regular_file _ = false

unfoldable pub is_socket : FileKind → Bool
is_socket socket = true
is_socket _ = false

-- `perm & 0022 != 0`
unfoldable pub writable_by_others : ℕ → Bool
writable_by_others perm = ((perm / 2) % 2 == 1) || ((perm / 16) % 2 == 1)

-- One round of the loop.
unfoldable pub check_ancestor : Lookup → Result PathError (Unit {0})
unfolding is_directory writable_by_others
check_ancestor missing = err lstat_failed
check_ancestor lookup_failed = err lstat_failed
check_ancestor (found info) =
    if not (is_directory info.kind) || not (info.uid == 0)
    then err not_root_directory
    else if writable_by_others info.perm && not info.sticky
    then err unsafe_ancestor
    else ok tt

-- The end of a round: an error is returned, the root ends the loop, and else it goes on.
unfoldable pub end_climb {ℓ} :
    {A : Type ℓ}
    → Result PathError A
    → Bool
    → Option (Result PathError A)
    → Option (Result PathError A)
end_climb (err e) at_root rest = some (err e)
end_climb (ok a) true rest = some (ok a)
end_climb (ok a) false rest = rest

-- The loop from `current` up: `none` when the fuel ends first.
unfoldable pub climb : (Bytes → Lookup) → ℕ → Bytes → Option (Result PathError (Unit {0}))
unfolding check_ancestor end_climb dir str_eq
climb lstat zero current = none
climb lstat (suc fuel) current =
    end_climb (check_ancestor (lstat current)) (str_eq current (codes "/"))
      (climb lstat fuel (dir current))

-- One round more than the path has bytes.
unfoldable pub verify_directory_chain :
    (Bytes → Lookup) → Bytes → Option (Result PathError (Unit {0}))
unfolding climb clean
verify_directory_chain lstat path = climb lstat (length path + 1) (clean path)

-- The checks of the file, after those of its directory.
unfoldable pub check_root_file : Lookup → Result PathError (Unit {0})
unfolding is_regular_file writable_by_others
check_root_file missing = err lstat_failed
check_root_file lookup_failed = err lstat_failed
check_root_file (found info) =
    if not (is_regular_file info.kind) || not (info.uid == 0) || writable_by_others info.perm
    then err unsafe_file
    else ok tt

unfoldable pub verify_root_file : (Bytes → Lookup) → Bytes → Option (Result PathError (Unit {0}))
unfolding verify_directory_chain check_root_file is_abs
verify_root_file lstat path =
    if not (is_abs path)
    then some (err not_absolute)
    else elim (verify_directory_chain lstat (dir path)) [
      | none ↦ none
      | some (err e) ↦ some (err e)
      | some (ok _) ↦ some (check_root_file (lstat path))
    ]
