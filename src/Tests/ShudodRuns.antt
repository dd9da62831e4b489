-- ===== src/Tests/ShudodRuns.antt =====
-- The helper on the arguments of a command, and the directories of a path.
use shudo.Prelude.{
  ℕ, ◌/◌, ◌==◌, ap, sym, ok_inj, ◌≡◌, refl, Bool, true, false, Option, none, some, List, [], ◌∷◌,
  Bytes, codes, str_eq, if◌then◌else◌, is_abs, Result, ok,
}
use shudo.Daemon.Execute.{Command, prepare}
use shudo.Shudod.{run_helper}
use shudo.Integrity.Pinned.{Image}
use shudo.Shudod.Helper.{opened_at, Executes, run_helper-prepare}
use shudo.Shudod.Chain.{directory, Lookup, found, missing, PathError, verify_directory_chain}
use shudo.Shudod.Chain.Ends.{verify_directory_chain-ends}
use shudo.Shudod.Files.{Os, prepare_database}
use shudo.Shudod.Files.Safe.{IsSafe, prepare_database-IsSafe}
use shudo.Tests.Sample.{the_request, id_file, root_directory}
use shudo.Tests.SubmitRuns.{later_run}
use shudo.Integrity.{FileStat, IntegrityError, open_verified_directory, root_environment}

abbrev ready_command : Command
ready_command = record {
  arguments =
      codes "__exec-fds" ∷ codes "/usr/bin/id" ∷ [] ∷ codes "0" ∷ [] ∷ codes "id" ∷ codes "-u" ∷ [];
  environment = root_environment;
  extra_files = id_file ∷ root_directory ∷ [];
}

ready : prepare later_run the_request ≡ ok ready_command
unfolding prepare shudo.Integrity.open_verified_directory str_eq shudo.Integrity.same_directory
    shudo.Integrity.directory_identity shudo.Integrity.open_verified_executable
    shudo.Integrity.is_regular shudo.Integrity.has_exec_bit shudo.Integrity.file_identity
    shudo.Integrity.sanitize_environment
ready = refl

-- The files that are directories can be entered.
abbrev can_enter : Option FileStat → Bool
can_enter none = false
can_enter (some file) = (file.mode / 4096) == 4

enterable :
    (d : FileStat)
    → open_verified_directory later_run.host the_request.working_directory_metadata ≡ ok d
    → can_enter (some d) ≡ true
unfolding open_verified_directory str_eq shudo.Integrity.same_directory
    shudo.Integrity.directory_identity
enterable d h =
    let same : ◌≡◌ {A = Result IntegrityError FileStat} (ok root_directory) (ok d) = h in
    ap (λ (f : FileStat). can_enter (some f)) (sym (ok_inj same))

run_helper-prepare_example :
    (image : Image) × (run_helper
        (λ fd. can_enter (opened_at ready_command fd))
        root_environment
        (codes "shudod" ∷ ready_command.arguments)
      ≡ some (ok image))
    × (image.environment ≡ root_environment)
    × Executes later_run the_request ready_command image
unfolding shudo.Prelude.is_empty shudo.Shudod.Helper.has_path
run_helper-prepare_example =
    run_helper-prepare later_run the_request ready_command can_enter (codes "shudod") ready
      enterable refl refl

-- `/run` is a directory of root, and so is `/`.
abbrev two_directories : Bytes → Lookup
two_directories path =
    if str_eq path (codes "/run")
    then found (record { kind = directory; perm = 493; sticky = false; uid = 0 })
    else if str_eq path (codes "/")
    then found (record { kind = directory; perm = 493; sticky = false; uid = 0 })
    else missing

run_is_abs : is_abs (codes "//run/") ≡ true
unfolding is_abs
run_is_abs = refl

verify_directory_chain-ends_example :
    (r : Result PathError (Unit {0})) × (verify_directory_chain two_directories (codes "//run/")
      ≡ some r)
verify_directory_chain-ends_example =
    verify_directory_chain-ends two_directories (codes "//run/") run_is_abs

-- Calls that change nothing.
abbrev idle_os : Os
idle_os = record {
  mkdir = λ path mode files. some files;
  chown = λ path uid gid files. some files;
  chmod = λ path mode files. some files;
  remove = λ path files. some files;
}

safe_database : prepare_database idle_os (codes "/run/db") two_directories ≡ ok two_directories
unfolding prepare_database
safe_database = refl

prepare_database-IsSafe_example : IsSafe (codes "/run/db") two_directories
prepare_database-IsSafe_example =
    prepare_database-IsSafe idle_os (codes "/run/db") two_directories two_directories safe_database
