-- ===== src/Shudod/Serve.antt =====
-- `run` of shudod where it is not the helper: the checks and the set-up before the server serves.
pub mod Ready
use shudo.Prelude.{
  ℕ, Bool, not, Option, none, some, List, Bytes, if◌then◌else◌, ◌==◌, Result, ok, err, ◌>>=◌,
}
use shudo.Config.{Daemon, load_daemon, ConfigError}
use shudo.State.Tables.{Codec, Tables, StoreError}
use shudo.State.Requests.{TxIo, Outcome}
use shudo.State.Startup.{open_store}
use shudo.Daemon.Start.{new_config}
use shudo.Daemon.Submission.{recover_approved}
use shudo.Shudod.Chain.{PathError, still_climbing, verify_root_file}
use shudo.Shudod.Files.{Files, Os, prepare_database, prepare_socket}

-- What the start finds: the path of `-config` (`none` where the flags are bad), the effective user,
-- the files and the calls on them, the decoder of the configuration, the tables of the database,
-- and what opening the database and listening on the socket leave of the files (`none` is an error).
pub record ServeEnv : Type 0 where
  pub config_path : Option Bytes
  pub euid : ℕ
  pub files : Files
  pub os : Os
  pub decode : Daemon → Option Daemon
  pub open_database : Bytes → Files → Option Files
  pub listen : Bytes → Files → Option Files
  pub codec : Codec
  pub io : TxIo
  pub open_text : Bytes
  pub now_text : Bytes
  pub tables : Tables

pub data ServeError : Type 0 where
  bad_flags not_root not_opened not_listening not_owned not_guarded : ServeError
  unsafe_config unsafe_policy unsafe_database unsafe_socket : PathError → ServeError
  bad_config : ConfigError → ServeError
  bad_store : StoreError → ServeError

-- What the start leaves for the server: the configuration of the service, the tables that the
-- recovery leaves, the approved requests for which it starts a goroutine each, and the files as they
-- are. The goroutines run `execute` from here on, before the server serves as well as after, so the
-- tables are those at which they start.
pub record Serving : Type 0 where
  pub config : Daemon
  pub recovered : Tables
  pub approved : List Bytes
  pub files : Files

-- The errors of the calls, under the names of this function.
abbrev or_path {ℓ} :
    {A : Type ℓ} → (PathError → ServeError) → Result PathError A → Result ServeError A
or_path f (err e) = err (f e)
or_path f (ok a) = ok a

abbrev or_config : Result ConfigError Daemon → Result ServeError Daemon
or_config (err e) = err (bad_config e)
or_config (ok c) = ok c

abbrev or_stop : ServeError → Option Files → Result ServeError Files
or_stop e none = err e
or_stop e (some files) = ok files

abbrev or_store : Outcome → Result ServeError Tables
or_store (err e, t) = err (bad_store e)
or_store (ok u, t) = ok t

abbrev some_path : Option Bytes → Result ServeError Bytes
some_path none = err bad_flags
some_path (some path) = ok path

-- `verifyRootFile` always answers for a path that is absolute.
abbrev verified : Files → Bytes → Result PathError (Unit {0})
verified files path = elim (verify_root_file files path) [ none ↦ err still_climbing | some r ↦ r ]

abbrev as_root : ℕ → Result ServeError (Unit {0})
as_root euid = if not (euid == 0) then err not_root else ok tt

-- From the socket on; the socket's mode is 0660.
unfoldable pub open_socket : ServeEnv → Daemon → Files → Result ServeError Files
unfolding prepare_socket
open_socket e c files = do
  ready ← or_path unsafe_socket (prepare_socket e.os c.socket_path c.socket_gid files)
  listening ← or_stop not_listening (e.listen c.socket_path ready)
  owned ← or_stop not_owned (e.os.chown c.socket_path 0 c.socket_gid listening)
  or_stop not_guarded (e.os.chmod c.socket_path 432 owned)

-- From the accepted configuration on.
unfoldable pub start_service : ServeEnv → Daemon → Result ServeError Serving
unfolding verify_root_file prepare_database open_store new_config recover_approved open_socket
start_service e c = do
  policy ← or_path unsafe_policy (verified e.files c.policy_path)
  prepared ← or_path unsafe_database (prepare_database e.os c.database_path e.files)
  opened ← or_stop not_opened (e.open_database c.database_path prepared)
  stored ← or_store (open_store e.io e.open_text e.tables)
  guarded ← open_socket e (new_config c) opened
  ok (record {
    config = new_config c;
    recovered = (recover_approved e.codec e.now_text stored).0;
    approved = (recover_approved e.codec e.now_text stored).1;
    files = guarded;
  })

unfoldable pub run_server : ServeEnv → Result ServeError Serving
unfolding verify_root_file load_daemon start_service
run_server e = do
  path ← some_path e.config_path
  root ← as_root e.euid
  checked ← or_path unsafe_config (verified e.files path)
  c ← or_config (load_daemon e.decode)
  start_service e c
