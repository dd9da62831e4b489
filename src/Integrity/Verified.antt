-- ===== src/Integrity/Verified.antt =====
-- What a verified descriptor is.
use shudo.Prelude.{
  ℕ, ◌≡◌, refl, ap, true, Option, none, some, List, Bytes, arith, str_eq_iff, Result, ok, err,
}
use mathlib.Core.Path.{subst}
use shudo.Model.{FileMetadata}
use shudo.Integrity.{
  FileStat, Host, IntegrityError, is_regular, has_exec_bit, timestamp, file_identity,
  inspect_executable_file, same_number, same_text, same_identity, check_identity, open_executable,
  open_verified_executable, root_environment, sanitize_environment,
}

-- An executable that is what was recorded: the file at the path, regular and executable, with the
-- recorded place, size, owner, mode, times and content.
pub record IsVerified (h : Host) (expected : FileMetadata) (stat : FileStat) : Type 0 where
  pub opened : h.open_file expected.path ≡ some stat
  pub regular : is_regular stat.mode ≡ true
  pub executable : has_exec_bit stat.mode ≡ true
  pub same_place : (expected.device ≡ some stat.device) × (expected.inode ≡ some stat.inode)
  pub same_size : expected.size ≡ some stat.size
  pub same_owner : (expected.owner_uid ≡ some stat.uid) × (expected.mode ≡ some stat.mode)
  pub same_times :
      (expected.mtime_ns ≡ some (timestamp stat.mtime_sec stat.mtime_nsec))
      × (expected.ctime_ns ≡ some (timestamp stat.ctime_sec stat.ctime_nsec))
  pub same_content : expected.sha256 ≡ h.sha256_hex stat.content

same_number-eq : (a : Option ℕ) (n : ℕ) → same_number a (some n) ≡ true → a ≡ some n
unfolding same_number
same_number-eq none n h = cc
same_number-eq (some a) n h = ground arith

same_text-eq : (a : Option Bytes) (s : Bytes) → same_text a (some s) ≡ true → a ≡ some s
unfolding same_text
same_text-eq none s h = cc
same_text-eq (some a) s h = ap (λ x. some x) ((str_eq_iff a s).0 h)

inspect_executable_file-ok :
    (h : Host) (stat : FileStat) (path : Bytes) (limit : ℕ) {m : FileMetadata}
    → inspect_executable_file h stat path limit ≡ ok m
    → (is_regular stat.mode ≡ true)
      × (has_exec_bit stat.mode ≡ true)
      × (m ≡ file_identity h stat path)
unfolding inspect_executable_file
inspect_executable_file-ok h stat path limit e = (ground arith, ground arith, ground arith)

same_identity-IsVerified :
    (h : Host) (expected : FileMetadata) (stat : FileStat)
    → h.open_file expected.path ≡ some stat
    → is_regular stat.mode ≡ true
    → has_exec_bit stat.mode ≡ true
    → same_identity expected (file_identity h stat expected.path) ≡ true
    → IsVerified h expected stat
unfolding same_identity file_identity
same_identity-IsVerified h expected stat o r x e = record {
  opened = o;
  regular = r;
  executable = x;
  same_place = (same_number-eq _ _ (ground arith), same_number-eq _ _ (ground arith));
  same_size = same_number-eq _ _ (ground arith);
  same_owner = (same_number-eq _ _ (ground arith), same_number-eq _ _ (ground arith));
  same_times = (same_text-eq _ _ (ground arith), same_text-eq _ _ (ground arith));
  same_content = (str_eq_iff expected.sha256 (h.sha256_hex stat.content)).0 (ground arith);
}

check_identity-ok :
    (expected : FileMetadata) (stat : FileStat) (r : Result IntegrityError FileMetadata)
    {stat' : FileStat}
    → check_identity expected stat r ≡ ok stat'
    → (m : FileMetadata) × (r ≡ ok m) × (same_identity expected m ≡ true) × (stat ≡ stat')
unfolding check_identity
check_identity-ok expected stat (err x) e = cc
check_identity-ok expected stat (ok m) e = (m, refl, ground arith, ground arith)

open_executable-IsVerified :
    (h : Host) (expected : FileMetadata) (o : Option FileStat) (stat : FileStat)
    → h.open_file expected.path ≡ o
    → open_executable h expected o ≡ ok stat
    → IsVerified h expected stat
unfolding open_executable
open_executable-IsVerified h expected none stat opened e = cc
open_executable-IsVerified h expected (some found) stat opened e =
    let (m, inspected, same, is) =
      check_identity-ok expected found (inspect_executable_file h found expected.path 0) e in
    let (regular, executable, identity) =
      inspect_executable_file-ok h found expected.path 0 inspected in
    subst (IsVerified h expected) is
      (same_identity-IsVerified h expected found opened regular executable (rw identity at same))

-- `OpenVerifiedExecutable` returns a descriptor only of a regular executable file that lies at the
-- recorded path and has every recorded attribute and the recorded SHA-256.
pub open_verified_executable-IsVerified :
    (h : Host) (expected : FileMetadata) (stat : FileStat)
    → open_verified_executable h expected ≡ ok stat
    → IsVerified h expected stat
unfolding open_verified_executable
open_verified_executable-IsVerified h expected stat e =
    open_executable-IsVerified h expected (h.open_file expected.path) stat refl e

pub sanitize_environment-ok :
    (overrides : List (Bytes × Bytes)) (allowed environment : List Bytes)
    → sanitize_environment overrides allowed ≡ ok environment
    → environment ≡ root_environment
unfolding sanitize_environment
sanitize_environment-ok overrides allowed environment h = ground arith
