-- ===== src/Integrity.antt =====
-- internal/integrity/integrity_linux.go: the identity of an executable and of a directory, and the
-- descriptors that were checked against it.
pub mod Verified
pub mod Inspect
pub mod Shebang
pub mod Resolve
pub mod Pinned
use shudo.Prelude.{
  ℕ, ◌+◌, ◌-◌, ◌*◌, ◌/◌, ◌%◌, ◌^◌, Bool, true, false, not, ◌&&◌, ◌||◌, Option, none, some, List, [],
  ◌∷◌, ◌++◌, Bytes, codes, length, if◌then◌else◌, ltb, ◌==◌, str_eq, is_abs, any, Result, ok, err,
  ◌>>=◌,
}
use shudo.Strings.{to_decimal}
use shudo.Paths.{base}
use shudo.Model.{RiskMetadata, FileMetadata, WorkingDirectoryMetadata}

-- What `fstat` and the content say of an open file. `size` is never negative.
pub record FileStat : Type 0 where
  pub mode : ℕ
  pub size : ℕ
  pub device : ℕ
  pub inode : ℕ
  pub uid : ℕ
  pub mtime_sec : ℕ
  pub mtime_nsec : ℕ
  pub ctime_sec : ℕ
  pub ctime_nsec : ℕ
  pub content : Bytes

-- The operating system and crypto/sha256 in hexadecimal, as the functions here use them. Each open
-- is of one moment: `none` is an error of `open`.
pub record Host : Type 0 where
  pub open_file : Bytes → Option FileStat
  pub open_directory : Bytes → Option FileStat
  pub sha256_hex : Bytes → Bytes

pub data IntegrityError : Type 0 where
  open_failed not_executable_file too_large out_of_range metadata_changed : IntegrityError
  directory_changed environment_not_supported not_absolute : IntegrityError
  bad_shebang nested_script empty_executable not_in_safe_path : IntegrityError

abbrev pub max_safe_integer : ℕ
max_safe_integer = 2 ^ 53 - 1

-- `mode & S_IFMT == S_IFREG`, and `mode & 0111 != 0`.
unfoldable pub is_regular : ℕ → Bool
is_regular mode = (mode / 4096) % 16 == 8

unfoldable pub has_exec_bit : ℕ → Bool
has_exec_bit mode = (mode % 2 == 1) || ((mode / 8) % 2 == 1) || ((mode / 64) % 2 == 1)

-- `%d` of an `int64`, which is kept as its residue.
unfoldable pub int64_text : ℕ → Bytes
unfolding to_decimal
int64_text n = if ltb n (2 ^ 63) then to_decimal n else b'-' ∷ to_decimal (2 ^ 64 - n)

-- The product and the sum wrap around, and the seconds of a file before 1970 are negative.
unfoldable pub timestamp : ℕ → ℕ → Bytes
unfolding int64_text
timestamp sec nsec = int64_text ((sec * 1000000000 + nsec) % 2 ^ 64)

-- The recorded identity of the file, with the mode as `uint32`.
unfoldable pub file_identity : Host → FileStat → Bytes → FileMetadata
unfolding timestamp
file_identity h stat path = record {
  path = path;
  device = some stat.device;
  inode = some stat.inode;
  size = some stat.size;
  owner_uid = some stat.uid;
  mode = some stat.mode;
  mtime_ns = some (timestamp stat.mtime_sec stat.mtime_nsec);
  ctime_ns = some (timestamp stat.ctime_sec stat.ctime_nsec);
  sha256 = h.sha256_hex stat.content;
}

-- `inspectExecutableFile`; a limit of 0 is none.
unfoldable pub inspect_executable_file :
    Host → FileStat → Bytes → ℕ → Result IntegrityError FileMetadata
inspect_executable_file h stat path max_bytes =
    if not (is_regular stat.mode) || not (has_exec_bit stat.mode)
    then err not_executable_file
    else if ltb 0 max_bytes && ltb max_bytes stat.size
    then err too_large
    else if ltb max_safe_integer stat.device
        || ltb max_safe_integer stat.inode
        || ltb max_safe_integer stat.size
    then err out_of_range
    else ok (file_identity h stat path)

-- A recorded field that is there and is the actual one. A missing one fails.
same_number : Option ℕ → Option ℕ → Bool
same_number (some a) (some b) = a == b
same_number _ _ = false

same_text : Option Bytes → Option Bytes → Bool
same_text (some a) (some b) = str_eq a b
same_text _ _ = false

unfoldable pub same_identity : FileMetadata → FileMetadata → Bool
unfolding same_number same_text
same_identity expected actual =
    same_number expected.device actual.device
    && same_number expected.inode actual.inode
    && same_number expected.size actual.size
    && same_number expected.owner_uid actual.owner_uid
    && same_number expected.mode actual.mode
    && same_text expected.mtime_ns actual.mtime_ns
    && same_text expected.ctime_ns actual.ctime_ns
    && str_eq expected.sha256 actual.sha256

check_identity :
    FileMetadata → FileStat → Result IntegrityError FileMetadata → Result IntegrityError FileStat
unfolding same_identity
check_identity expected stat (err e) = err e
check_identity expected stat (ok actual) =
    if same_identity expected actual then ok stat else err metadata_changed

open_executable : Host → FileMetadata → Option FileStat → Result IntegrityError FileStat
unfolding check_identity inspect_executable_file
open_executable h expected none = err open_failed
open_executable h expected (some stat) =
    check_identity expected stat (inspect_executable_file h stat expected.path 0)

-- The file description that was checked: `OpenVerifiedExecutable`.
unfoldable pub open_verified_executable : Host → FileMetadata → Result IntegrityError FileStat
unfolding open_executable
open_verified_executable h expected = open_executable h expected (h.open_file expected.path)

unfoldable pub directory_identity : FileStat → Bytes → WorkingDirectoryMetadata
unfolding timestamp
directory_identity stat path = record {
  path = path;
  device = stat.device;
  inode = stat.inode;
  owner_uid = stat.uid;
  mode = stat.mode;
  mtime_ns = timestamp stat.mtime_sec stat.mtime_nsec;
  ctime_ns = timestamp stat.ctime_sec stat.ctime_nsec;
}

-- `actual == expected` on the struct.
unfoldable pub same_directory : WorkingDirectoryMetadata → WorkingDirectoryMetadata → Bool
same_directory a b =
    str_eq a.path b.path
    && a.device == b.device
    && a.inode == b.inode
    && a.owner_uid == b.owner_uid
    && a.mode == b.mode
    && str_eq a.mtime_ns b.mtime_ns
    && str_eq a.ctime_ns b.ctime_ns

open_directory_stat : WorkingDirectoryMetadata → Option FileStat → Result IntegrityError FileStat
open_directory_stat expected none = err open_failed
open_directory_stat expected (some stat) =
    if same_directory (directory_identity stat expected.path) expected
    then ok stat
    else err directory_changed

unfoldable pub open_verified_directory :
    Host → WorkingDirectoryMetadata → Result IntegrityError FileStat
unfolding open_directory_stat
open_verified_directory h expected = open_directory_stat expected (h.open_directory expected.path)

-- `VerifyExecutable` and `VerifyDirectory`: the same checks, and the descriptor is closed.
abbrev pub verify_executable : Host → FileMetadata → Result IntegrityError (Unit {0})
verify_executable h expected = do file ← open_verified_executable h expected; ok tt

abbrev pub verify_directory : Host → WorkingDirectoryMetadata → Result IntegrityError (Unit {0})
verify_directory h expected = do file ← open_verified_directory h expected; ok tt

abbrev pub safe_path : Bytes
safe_path = codes "/usr/local/sbin:/usr/local/bin:/usr/sbin:/usr/bin:/sbin:/bin"

-- The map's order is not fixed: the entries are compared as a set.
abbrev pub root_environment : List Bytes
root_environment = (codes "PATH=" ++ safe_path) ∷ codes "HOME=/root" ∷ codes "LANG=C.UTF-8" ∷ []

unfoldable pub sanitize_environment :
    List (Bytes × Bytes) → List Bytes → Result IntegrityError (List Bytes)
sanitize_environment overrides allowed =
    if not (length allowed == 0) || not (length overrides == 0)
    then err environment_not_supported
    else ok root_environment
