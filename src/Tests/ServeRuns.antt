-- ===== src/Tests/ServeRuns.antt =====
-- A start of shudod on files of root.
use shudo.Prelude.{
  ◌≡◌, refl, Bool, true, false, ◌||◌, Option, none, some, List, [], ◌∷◌, Bytes, codes, str_eq,
  if◌then◌else◌, pos, ok,
}
use shudo.Config.{Daemon, defaults}
use shudo.State.Startup.{open_store}
use shudo.Daemon.Submission.{recover_approved}
use shudo.Shudod.Chain.{directory, regular, Lookup, found, missing}
use shudo.Shudod.Files.{Os}
use shudo.Shudod.Serve.{ServeEnv, Serving, run_server}
use shudo.Shudod.Serve.Ready.{IsReady, run_server-IsReady}
use shudo.Tests.Sample.{one_codec, commits}
use shudo.Tests.SubmitRuns.{idle_service}

abbrev four_files : Bytes → Lookup
four_files path =
    if str_eq path (codes "/run") || str_eq path (codes "/")
    then found (record { kind = directory; perm = 493; sticky = false; uid = 0 })
    else if str_eq path (codes "/run/config") || str_eq path (codes "/run/policy")
    then found (record { kind = regular; perm = 384; sticky = false; uid = 0 })
    else missing

abbrev quiet_os : Os
quiet_os = record {
  mkdir = λ path mode files. some files;
  chown = λ path uid gid files. some files;
  chmod = λ path mode files. some files;
  remove = λ path files. some files;
}

abbrev with_paths : Daemon → Daemon
with_paths c = record c {
  version = pos 1;
  policy_path = codes "/run/policy";
  database_path = codes "/run/db";
  socket_path = codes "/run/socket";
}

abbrev first_start : ServeEnv
first_start = record {
  config_path = some (codes "/run/config");
  euid = 0;
  files = four_files;
  os = quiet_os;
  decode = λ c. some (with_paths c);
  open_database = λ path files. some files;
  listen = λ path files. some files;
  codec = one_codec;
  io = commits;
  open_text = codes "t0";
  now_text = codes "t1";
  tables = idle_service.tables;
}

abbrev first_serving : Serving
first_serving = record {
  config = with_paths defaults;
  recovered =
      (recover_approved one_codec (codes "t1")
        (open_store commits (codes "t0") idle_service.tables).1).0;
  approved = [];
  files = four_files;
}

serves : run_server first_start ≡ ok first_serving
unfolding run_server shudo.Config.load_daemon shudo.Prelude.is_abs shudo.Prelude.contains_byte
    shudo.Config.bad_output shudo.Config.int_lt shudo.Config.bad_limits shudo.Config.is_outside
    shudo.Daemon.Start.new_config shudo.Daemon.Start.or_default open_store
    shudo.Shudod.Files.prepare_database shudo.Shudod.Chain.verify_root_file recover_approved
    shudo.State.Sql.select_first shudo.State.Requests.transaction
    shudo.State.Requests.expire_outstanding shudo.State.Listing.approved_requests
    shudo.State.Sql.update_where shudo.State.Sql.delete_where shudo.State.Sql.select_where
serves = refl

run_server-IsReady_example : IsReady first_start first_serving
run_server-IsReady_example = run_server-IsReady first_start first_serving serves
