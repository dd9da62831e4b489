-- ===== src/Shudod/Serve/Ready.antt =====
-- What is true when the start of shudod has succeeded.
use mathlib.Core.Path.{subst}
use shudo.Prelude.{
  ℕ, ◌≡◌, refl, sym, ap, ◌∙◌, true, false, Option, none, some, List, [], ◌∷◌, Bytes, ◌==◌, arith,
  Result, ok, err, >>=-eq-ok, ok_inj,
}
use shudo.Model.{expired, status_eq}
use shudo.State.Sql.{exists_where, update_where}
use shudo.State.Tables.{Codec, RequestRow, Tables}
use shudo.State.Requests.{Outcome, is_outdated, expire_outstanding}
use shudo.State.Startup.{open_store}
use shudo.State.Startup.Interrupted.{is_executing, open_store-is_executing}
use shudo.Config.{Daemon, load_daemon, ConfigError}
use shudo.Config.Bounds.{load_daemon-IsSafe}
use shudo.Config.Bounds
use shudo.Daemon.Start.{new_config}
use shudo.Daemon.Start.Unchanged.{load_daemon-new_config}
use shudo.Daemon.Submission.{recover_approved}
use shudo.Shudod.Chain.{PathError}
use shudo.Shudod.Files.{Files, prepare_database}
use shudo.Shudod.Files.Safe
use shudo.Shudod.Files.Safe.{prepare_database-IsSafe}
use shudo.Shudod.Serve.{
  ServeEnv, ServeError, Serving, or_path, or_config, or_stop, or_store, some_path, verified,
  as_root, open_socket, start_service, run_server, not_opened, unsafe_policy, unsafe_database,
  unsafe_config,
}

pub record IsReady (e : ServeEnv) (s : Serving) : Type 0 where
  pub path : Bytes
  pub flags : e.config_path ≡ some path
  pub root : (e.euid == 0) ≡ true
  pub config_file : verified e.files path ≡ ok tt
  pub accepted : load_daemon e.decode ≡ ok s.config
  pub in_bounds : Bounds.IsSafe s.config
  pub policy_file : verified e.files s.config.policy_path ≡ ok tt
  pub prepared : Files
  pub preparation : prepare_database e.os s.config.database_path e.files ≡ ok prepared
  pub database : Safe.IsSafe s.config.database_path prepared
  pub opened : Files
  pub opening : e.open_database s.config.database_path prepared ≡ some opened
  pub socket : open_socket e s.config opened ≡ ok s.files
  pub interrupted : exists_where is_executing s.recovered.requests ≡ false

or_path-ok :
    {A : Type 0} (f : PathError → ServeError) (r : Result PathError A) {a : A}
    → or_path f r ≡ ok a
    → r ≡ ok a
or_path-ok f (err x) h = cc
or_path-ok f (ok a) h = ground arith

or_config-ok : (r : Result ConfigError Daemon) {c : Daemon} → or_config r ≡ ok c → r ≡ ok c
or_config-ok (err x) h = cc
or_config-ok (ok c) h = ground arith

or_stop-ok :
    (x : ServeError) (o : Option Files) {files : Files} → or_stop x o ≡ ok files → o ≡ some files
or_stop-ok x none h = cc
or_stop-ok x (some files) h = ground arith

or_store-ok : (o : Outcome) {t : Tables} → or_store o ≡ ok t → o.1 ≡ t
or_store-ok (err x, t) h = cc
or_store-ok (ok u, t) h = ground arith

some_path-ok : (o : Option Bytes) {path : Bytes} → some_path o ≡ ok path → o ≡ some path
some_path-ok none h = cc
some_path-ok (some path) h = ground arith

-- The expiry leaves no request executing.
expired-is_executing :
    (c : Codec) (now : Bytes) (rows : List RequestRow)
    → exists_where is_executing rows ≡ false
    → exists_where is_executing
        (update_where (is_outdated c now) (λ r. record r { status = expired }) rows)
      ≡ false
unfolding exists_where update_where status_eq
expired-is_executing c now [] h = refl
expired-is_executing c now (r ∷ rows) h = ground (arith, expired-is_executing c now rows)

recovered :
    (e : ServeEnv) (stored : Tables)
    → or_store (open_store e.io e.open_text e.tables) ≡ ok stored
    → exists_where is_executing (recover_approved e.codec e.now_text stored).0.requests ≡ false
unfolding recover_approved expire_outstanding
recovered e stored h =
    let same = or_store-ok (open_store e.io e.open_text e.tables) h in
    let (none_executing, ended) = open_store-is_executing e.io e.open_text e.tables in
    expired-is_executing e.codec e.now_text stored.requests
      (ap (λ (t : Tables). exists_where is_executing t.requests) (sym same) ∙ none_executing)

started :
    (e : ServeEnv) (path : Bytes) (c : Daemon) (s : Serving)
    → e.config_path ≡ some path
    → (e.euid == 0) ≡ true
    → verified e.files path ≡ ok tt
    → load_daemon e.decode ≡ ok c
    → start_service e c ≡ ok s
    → IsReady e s
unfolding start_service
started e path c s flags root checked loaded h =
    let (policy, p, h1) = >>=-eq-ok (or_path unsafe_policy (verified e.files c.policy_path)) _ h in
    let (prepared, d, h2) =
      >>=-eq-ok (or_path unsafe_database (prepare_database e.os c.database_path e.files)) _ h1 in
    let (opened, o, h3) =
      >>=-eq-ok (or_stop not_opened (e.open_database c.database_path prepared)) _ h2 in
    let (stored, t, h4) = >>=-eq-ok (or_store (open_store e.io e.open_text e.tables)) _ h3 in
    let (guarded, g, h5) = >>=-eq-ok (open_socket e (new_config c) opened) _ h4 in
    let same = load_daemon-new_config e.decode c loaded in
    let back = sym same in
    subst (IsReady e) (ok_inj h5) (record {
      path = path;
      flags = flags;
      root = root;
      config_file = checked;
      accepted = loaded ∙ ap (λ (d : Daemon). ok d) back;
      in_bounds = subst Bounds.IsSafe back (load_daemon-IsSafe e.decode c loaded);
      policy_file =
          subst (λ (d : Daemon). verified e.files d.policy_path ≡ ok tt) back
            (or_path-ok unsafe_policy (verified e.files c.policy_path) p);
      prepared = prepared;
      preparation =
          subst (λ (d : Daemon). prepare_database e.os d.database_path e.files ≡ ok prepared) back
            (or_path-ok unsafe_database (prepare_database e.os c.database_path e.files) d);
      database =
          subst (λ (d : Daemon). Safe.IsSafe d.database_path prepared) back
            (prepare_database-IsSafe e.os c.database_path e.files prepared
              (or_path-ok unsafe_database (prepare_database e.os c.database_path e.files) d));
      opened = opened;
      opening =
          subst (λ (d : Daemon). e.open_database d.database_path prepared ≡ some opened) back
            (or_stop-ok not_opened (e.open_database c.database_path prepared) o);
      socket = g;
      interrupted = recovered e stored t;
    })

as_root-ok : (euid : ℕ) → as_root euid ≡ ok tt → (euid == 0) ≡ true
as_root-ok euid h = ground arith

-- Where the start of shudod succeeds: it runs as root; its configuration and its policy are files of
-- root in safe directories; the configuration is the one that was loaded, unchanged, and in bounds;
-- the database was opened on the files that its preparation left, which were safe; the socket was
-- opened on the files that the database left; and no request is executing in the tables that the
-- recovery leaves, before a goroutine of an approved request runs.
pub run_server-IsReady : (e : ServeEnv) (s : Serving) → run_server e ≡ ok s → IsReady e s
unfolding run_server
run_server-IsReady e s h =
    let (path, p, h1) = >>=-eq-ok (some_path e.config_path) _ h in
    let (root, r, h2) = >>=-eq-ok (as_root e.euid) _ h1 in
    let (checked, k, h3) = >>=-eq-ok (or_path unsafe_config (verified e.files path)) _ h2 in
    let (c, l, h4) = >>=-eq-ok (or_config (load_daemon e.decode)) _ h3 in
    started e path c s (some_path-ok e.config_path p) (as_root-ok e.euid r)
      (or_path-ok unsafe_config (verified e.files path) k) (or_config-ok (load_daemon e.decode) l)
      h4
