-- ===== src/Integrity/Inspect/RoundTrip.antt =====
-- What an inspection records, the verification accepts again while the file is the same.
use shudo.Prelude.{
  ℕ, ◌≡◌, refl, sym, ap, ◌∙◌, Bool, true, not, Option, none, some, Bytes, arith, is_abs, Bool-cases,
  inl, inr, ◌==◌, ==_iff, str_eq_refl, Result, ok, err, >>=-eq-ok, err_and_ok, ok_inj,
  if◌then◌else◌,
}
use shudo.Model.{FileMetadata, WorkingDirectoryMetadata}
use shudo.Integrity.{
  FileStat, Host, IntegrityError, nested_script, metadata_changed, directory_changed, open_failed,
  not_absolute, file_identity, inspect_executable_file, same_identity, open_verified_executable,
  directory_identity, same_directory, open_verified_directory,
}
use mathlib.Core.Path.{subst}
use shudo.Integrity.Shebang.{Shebang, inspect_shebang}
use shudo.Integrity.Inspect.{
  Inspected, resolve, inspect_script, open_path, inspect_interpreter_path,
  inspect_executable_and_interpreter, inspect_directory, inspect_resolved,
}

-- An accepted file has the identity that is recorded, and passes again without a size limit.
inspect_executable_file-ok :
    (h : Host) (stat : FileStat) (path : Bytes) (max_bytes : ℕ) (m : FileMetadata)
    → inspect_executable_file h stat path max_bytes ≡ ok m
    → (m ≡ file_identity h stat path) × (inspect_executable_file h stat path 0 ≡ ok m)
unfolding inspect_executable_file
inspect_executable_file-ok h stat path max_bytes m e = (ground arith, ground arith)

==_refl : (n : ℕ) → (n == n) ≡ true
==_refl n = (==_iff n n).1 refl

fields_same :
    (path mtime ctime sha : Bytes) (device inode size owner mode : ℕ)
    → let m : FileMetadata = record {
      path = path;
      device = some device;
      inode = some inode;
      size = some size;
      owner_uid = some owner;
      mode = some mode;
      mtime_ns = some mtime;
      ctime_ns = some ctime;
      sha256 = sha;
    } in
      same_identity m m ≡ true
unfolding same_identity
fields_same path mtime ctime sha device inode size owner mode = rw (
  ==_refl device,
  ==_refl inode,
  ==_refl size,
  ==_refl owner,
  ==_refl mode,
  str_eq_refl mtime,
  str_eq_refl ctime,
  str_eq_refl sha,
)

same_identity_refl :
    (h : Host) (stat : FileStat) (path : Bytes)
    → same_identity (file_identity h stat path) (file_identity h stat path) ≡ true
unfolding file_identity
same_identity_refl h stat path =
    fields_same path _ _ (h.sha256_hex stat.content) stat.device stat.inode stat.size stat.uid
      stat.mode

to_result : Bool → FileStat → Result IntegrityError FileStat
to_result b stat = if b then ok stat else err metadata_changed

-- An executable that was inspected at a path is opened and verified while the path holds it.
pub open_verified_executable-inspect :
    (h : Host) (stat : FileStat) (path : Bytes) (max_bytes : ℕ) (m : FileMetadata)
    → h.open_file path ≡ some stat
    → inspect_executable_file h stat path max_bytes ≡ ok m
    → open_verified_executable h m ≡ ok stat
unfolding open_verified_executable to_result
open_verified_executable-inspect h stat path max_bytes m there e =
    let (same, again) = inspect_executable_file-ok h stat path max_bytes m e in
    let at_path : m.path ≡ path =
      ap (λ (x : FileMetadata). x.path) same ∙ (unfold file_identity in refl) in
    let kept : same_identity m m ≡ true = rw same (same_identity_refl h stat path) in
    let there' : h.open_file m.path ≡ some stat = ap h.open_file at_path ∙ there in
    let again' : inspect_executable_file h stat m.path 0 ≡ ok m =
      ap (λ p. inspect_executable_file h stat p 0) at_path ∙ again in
    rw (there', again') (ap (λ (b : Bool). to_result b stat) kept)

pub record DirectoryFound (stat_path : Bytes → Option FileStat) (m : WorkingDirectoryMetadata)
    : Type 0 where
  pub stat : FileStat
  pub there : stat_path m.path ≡ some stat
  pub recorded : m ≡ directory_identity stat m.path

inspect_resolved-DirectoryFound :
    (stat_path : Bytes → Option FileStat) (path : Bytes) (s : Option FileStat)
    (m : WorkingDirectoryMetadata)
    → stat_path path ≡ s
    → inspect_resolved path s ≡ ok m
    → DirectoryFound stat_path m
unfolding inspect_resolved
inspect_resolved-DirectoryFound stat_path path none m there e = cc
inspect_resolved-DirectoryFound stat_path path (some stat) m there e =
    let same : m ≡ directory_identity stat path = ground arith in
    let at_path : m.path ≡ path =
      ap (λ (x : WorkingDirectoryMetadata). x.path) same ∙ (unfold directory_identity in refl) in
    record {
      stat = stat;
      there = ap stat_path at_path ∙ there;
      recorded = same ∙ sym (ap (directory_identity stat) at_path);
    }

pub inspect_directory-DirectoryFound :
    (eval_symlinks : Bytes → Option Bytes) (stat_path : Bytes → Option FileStat) (path : Bytes)
    (m : WorkingDirectoryMetadata)
    → inspect_directory eval_symlinks stat_path path ≡ ok m
    → DirectoryFound stat_path m
unfolding inspect_directory
inspect_directory-DirectoryFound eval_symlinks stat_path path m = go (eval_symlinks path)
  where
    go :
        (r : Option Bytes)
        → elim r [
          | none ↦ err open_failed
          | some resolved ↦
              if not (is_abs resolved)
              then err not_absolute
              else inspect_resolved resolved (stat_path resolved)
        ]
          ≡ ok m
        → DirectoryFound stat_path m
    go none e = cc
    go (some resolved) e = elim (Bool-cases (is_abs resolved)) [
      | inl absolute ↦
          inspect_resolved-DirectoryFound stat_path resolved (stat_path resolved) m refl
            (rw absolute at e)
      | inr relative ↦ err_and_ok (rw relative at e)
    ]

same_directory_refl :
    (stat : FileStat) (path : Bytes)
    → same_directory (directory_identity stat path) (directory_identity stat path) ≡ true
unfolding same_directory directory_identity
same_directory_refl stat path = rw (
  str_eq_refl path,
  ==_refl stat.device,
  ==_refl stat.inode,
  ==_refl stat.uid,
  ==_refl stat.mode,
  str_eq_refl (directory_identity stat path).mtime_ns,
  str_eq_refl (directory_identity stat path).ctime_ns,
)

directory_result : Bool → FileStat → Result IntegrityError FileStat
directory_result b stat = if b then ok stat else err directory_changed

-- A directory that was inspected is opened and verified while its path holds it.
pub open_verified_directory-DirectoryFound :
    (h : Host) (stat_path : Bytes → Option FileStat) (m : WorkingDirectoryMetadata)
    → (found : DirectoryFound stat_path m) → h.open_directory m.path ≡ stat_path m.path
    → open_verified_directory h m ≡ ok found.stat
unfolding open_verified_directory directory_result
open_verified_directory-DirectoryFound h stat_path m found same =
    let there : h.open_directory m.path ≡ some found.stat = same ∙ found.there in
    let kept : same_directory (directory_identity found.stat m.path) m ≡ true =
      ap (same_directory (directory_identity found.stat m.path)) found.recorded
      ∙ same_directory_refl found.stat m.path in
    rw there (ap (λ (b : Bool). directory_result b found.stat) kept)

abbrev pub IsOpened : Host → FileMetadata → Type 0
IsOpened h m = (stat : FileStat) × (open_verified_executable h m ≡ ok stat)

abbrev pub AllOpened : Host → Option FileMetadata → Type 0
AllOpened h none = Unit
AllOpened h (some m) = IsOpened h m

open_path-ok :
    (h : Host) (path : Bytes) (stat : FileStat)
    → open_path h path ≡ ok stat
    → h.open_file path ≡ some stat
unfolding open_path
open_path-ok h path stat e = ground arith

-- What opens and is accepted opens again when it is verified.
inspected-IsOpened :
    (h : Host) (path : Bytes) (max_bytes : ℕ) (stat : FileStat) (m : FileMetadata)
    → open_path h path ≡ ok stat
    → inspect_executable_file h stat path max_bytes ≡ ok m
    → IsOpened h m
inspected-IsOpened h path max_bytes stat m p q =
    (stat, open_verified_executable-inspect h stat path max_bytes m (open_path-ok h path stat p) q)

inspect_interpreter_path-IsOpened :
    (h : Host) (path : Bytes) (max_bytes : ℕ) (m : FileMetadata)
    → inspect_interpreter_path h path max_bytes ≡ ok m
    → IsOpened h m
unfolding inspect_interpreter_path
inspect_interpreter_path-IsOpened h path max_bytes m e =
    let (stat, p, e1) = >>=-eq-ok (open_path h path) _ e in
    let (m', q, e2) = >>=-eq-ok (inspect_executable_file h stat path max_bytes) _ e1 in
    let (script, r, e3) = >>=-eq-ok (inspect_shebang stat.content) _ e2 in
    subst (IsOpened h) (not_script script m' e3) (inspected-IsOpened h path max_bytes stat m' p q)
  where
    not_script :
        (script : Option Shebang) (m' : FileMetadata)
        → elim script [ none ↦ ok m' | some _ ↦ err nested_script ] ≡ ok m
        → m' ≡ m
    not_script none m' e = cc
    not_script (some s) m' e = err_and_ok e

inspect_script-AllOpened :
    (h : Host) (eval_symlinks : Bytes → Option Bytes) (max_bytes : ℕ) (m : FileMetadata)
    (script : Option Shebang) (i : Inspected)
    → inspect_script h eval_symlinks max_bytes m script ≡ ok i
    → (m ≡ i.metadata) × AllOpened h i.interpreter
unfolding inspect_script
inspect_script-AllOpened h eval_symlinks max_bytes m none i e =
    subst (λ (x : Inspected). (m ≡ x.metadata) × AllOpened h x.interpreter) (ok_inj e) (refl, tt)
inspect_script-AllOpened h eval_symlinks max_bytes m (some s) i e =
    let (resolved, p, e1) = >>=-eq-ok (resolve eval_symlinks s.path) _ e in
    let (interpreter, q, e2) = >>=-eq-ok (inspect_interpreter_path h resolved max_bytes) _ e1 in
    subst (λ (x : Inspected). (m ≡ x.metadata) × AllOpened h x.interpreter) (ok_inj e2)
      (refl, inspect_interpreter_path-IsOpened h resolved max_bytes interpreter q)

-- Everything that an inspection records is opened and verified while the files are the same.
pub inspect_executable_and_interpreter-AllOpened :
    (h : Host) (eval_symlinks : Bytes → Option Bytes) (path : Bytes) (max_bytes : ℕ) (i : Inspected)
    → inspect_executable_and_interpreter h eval_symlinks path max_bytes ≡ ok i
    → IsOpened h i.metadata × AllOpened h i.interpreter
unfolding inspect_executable_and_interpreter
inspect_executable_and_interpreter-AllOpened h eval_symlinks path max_bytes i e =
    let (stat, p, e1) = >>=-eq-ok (open_path h path) _ e in
    let (m, q, e2) = >>=-eq-ok (inspect_executable_file h stat path max_bytes) _ e1 in
    let (script, r, e3) = >>=-eq-ok (inspect_shebang stat.content) _ e2 in
    let (same, interpreter) = inspect_script-AllOpened h eval_symlinks max_bytes m script i e3 in
    (subst (IsOpened h) same (inspected-IsOpened h path max_bytes stat m p q), interpreter)
