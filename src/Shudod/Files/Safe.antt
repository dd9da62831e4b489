-- ===== src/Shudod/Files/Safe.antt =====
-- What a prepared database lies in.
use shudo.Prelude.{
  ◌≡◌, ap, Option, none, some, List, [], ◌∷◌, Bytes, All, Result, ok, err, >>=-eq-ok, ok_inj,
  err_and_ok,
}
use mathlib.Core.Path.{subst}
use shudo.Paths.{clean, dir}
use shudo.Shudod.Chain.{PathError, still_climbing, check_ancestor, verify_directory_chain}
use shudo.Shudod.Chain.Ends.{Above, verify_directory_chain-Above}
use shudo.Shudod.Files.{
  Files, Os, chain, made_directory, check_directory, ready_directory, check_database_file,
  check_each, database_files, prepare_database,
}

chain-ok :
    (files : Files) (path : Bytes)
    → chain files path ≡ ok tt
    → verify_directory_chain files path ≡ some (ok tt)
unfolding chain
chain-ok files path = go (verify_directory_chain files path)
  where
    go :
        (r : Option (Result PathError (Unit {0})))
        → elim r [ none ↦ err still_climbing | some a ↦ a ] ≡ ok tt
        → r ≡ some (ok tt)
    go none h = err_and_ok h
    go (some a) h = ap some h

-- The directory is one of root that only root writes, with such ancestors, and each database file is
-- one of root with mode 0600, or is not there.
pub record IsSafe (path : Bytes) (files : Files) : Type 0 where
  pub directory : check_directory (files (dir path)) ≡ ok tt
  pub ancestors :
      {ancestor : Bytes}
      → Above (clean (dir path)) ancestor
      → check_ancestor (files ancestor) ≡ ok tt
  pub database : All (λ p. check_database_file (files p) ≡ ok tt) (database_files path)

check_each-All :
    (files : Files) (paths : List Bytes)
    → check_each files paths ≡ ok tt
    → All (λ p. check_database_file (files p) ≡ ok tt) paths
unfolding check_each
check_each-All files [] h = tt
check_each-All files (path ∷ paths) h =
    let (u, first, rest) = >>=-eq-ok (check_database_file (files path)) _ h in
    (first, check_each-All files paths rest)

-- Where the database is prepared without an error, its directory is one of root that only root writes,
-- all directories above it are safe, and the database and its two companions are regular files of
-- root with mode 0600 or are not there: in the files as they are then, whatever making the directory
-- did.
pub prepare_database-IsSafe :
    (os : Os) (path : Bytes) (files after : Files)
    → prepare_database os path files ≡ ok after
    → IsSafe path after
unfolding prepare_database ready_directory
prepare_database-IsSafe os path files after h =
    let (ready, a, h1) = >>=-eq-ok (ready_directory os 448 (dir path) files) _ h in
    let (u, b, h2) = >>=-eq-ok (check_each ready (database_files path)) _ h1 in
    let (made, c, a1) = >>=-eq-ok (made_directory os 448 (dir path) files) _ a in
    let (v, d, a2) = >>=-eq-ok (chain made (dir path)) _ a1 in
    let (w, e, a3) = >>=-eq-ok (check_directory (made (dir path))) _ a2 in
    subst (IsSafe path) (ok_inj h2) (
      subst (λ files. check_each files (database_files path) ≡ ok tt → IsSafe path files)
        (ok_inj a3)
        (λ each. record {
          directory = e;
          ancestors = verify_directory_chain-Above made (dir path) (chain-ok made (dir path) d);
          database = check_each-All made (database_files path) each;
        })
        b)
