-- ===== src/Config.antt =====
-- internal/config/config.go: the configuration of the daemon and the bounds that `LoadDaemon` checks.
-- The YAML decoder is a parameter, with the defaults in place: `none` is an error of it.
pub mod Bounds
use shudo.Prelude.{
  ℕ, ◌*◌, Bool, true, false, not, ◌&&◌, ◌||◌, Option, none, some, List, [], ◌∷◌, Bytes, codes,
  length, any, if◌then◌else◌, ltb, ◌==◌, contains_byte, is_abs, Result, ok, err, ℤ, pos, negsuc,
}

pub record Output : Type 0 where
  pub live_bytes : ℤ
  pub persisted_bytes : ℤ

-- The fields of older versions that are never used are left out.
pub record Daemon : Type 0 where
  pub version : ℤ
  pub socket_path : Bytes
  pub socket_gid : ℕ
  pub database_path : Bytes
  pub policy_path : Bytes
  pub require_peer_credentials : Bool
  pub allow_non_root : Bool
  pub allowed_environment : List Bytes
  pub max_pending_per_uid : ℤ
  pub max_pending_total : ℤ
  pub max_concurrent_per_uid : ℤ
  pub max_concurrent_total : ℤ
  pub max_submissions_per_minute : ℤ
  pub max_watchers_per_uid : ℤ
  pub max_watchers_per_request : ℤ
  pub max_executable_bytes : ℤ
  pub max_database_bytes : ℤ
  pub retention_days : ℤ
  pub max_retained_unapproved : ℤ
  pub max_execution_seconds : ℤ
  pub output : Output

pub data ConfigError : Type 0 where
  not_decoded unsupported_version peer_credentials not_absolute : ConfigError
  invalid_output invalid_limits environment_not_supported : ConfigError

-- What the decoder starts from.
abbrev pub defaults : Daemon
defaults = record {
  version = pos 0;
  socket_path = codes "/run/shudo/shudo.sock";
  socket_gid = 0;
  database_path = codes "/var/lib/shudo/shudo.db";
  policy_path = codes "/etc/shudo/policy.yaml";
  require_peer_credentials = true;
  allow_non_root = false;
  allowed_environment = [];
  max_pending_per_uid = pos 8;
  max_pending_total = pos 256;
  max_concurrent_per_uid = pos 2;
  max_concurrent_total = pos 32;
  max_submissions_per_minute = pos 60;
  max_watchers_per_uid = pos 8;
  max_watchers_per_request = pos 4;
  max_executable_bytes = pos 268435456;
  max_database_bytes = pos 1073741824;
  retention_days = pos 30;
  max_retained_unapproved = pos 10000;
  max_execution_seconds = pos 3600;
  output = record { live_bytes = pos 1048576; persisted_bytes = pos 10485760 };
}

-- `<` on Go's signed integers.
unfoldable pub int_lt : ℤ → ℤ → Bool
int_lt (pos a) (pos b) = ltb a b
int_lt (negsuc a) (pos b) = true
int_lt (pos a) (negsuc b) = false
int_lt (negsuc a) (negsuc b) = ltb b a

-- `value < low || value > high`
unfoldable pub is_outside : ℤ → ℤ → ℤ → Bool
is_outside low high value = int_lt value low || int_lt high value

bad_path : Bytes → Bool
bad_path path = not (is_abs path) || contains_byte 0 path

unfoldable pub bad_output : Output → Bool
bad_output o =
    not (int_lt (pos 0) o.live_bytes)
    || not (int_lt (pos 0) o.persisted_bytes)
    || int_lt o.persisted_bytes o.live_bytes
    || int_lt (pos 104857600) o.persisted_bytes

unfoldable pub bad_limits : Daemon → Bool
bad_limits c =
    is_outside (pos 1) (pos 1000) c.max_pending_per_uid
    || is_outside c.max_pending_per_uid (pos 100000) c.max_pending_total
    || is_outside (pos 1) (pos 64) c.max_concurrent_per_uid
    || is_outside c.max_concurrent_per_uid (pos 1024) c.max_concurrent_total
    || is_outside (pos 1) (pos 10000) c.max_submissions_per_minute
    || is_outside (pos 1) (pos 1000) c.max_watchers_per_uid
    || is_outside (pos 1) c.max_watchers_per_uid c.max_watchers_per_request
    || is_outside (pos 1048576) (pos 4294967296) c.max_executable_bytes
    || is_outside (pos 16777216) (pos 1099511627776) c.max_database_bytes
    || is_outside (pos 1) (pos 3650) c.retention_days
    || is_outside (pos 100) (pos 1000000) c.max_retained_unapproved
    || is_outside (pos 1) (pos 86400) c.max_execution_seconds

is_one : ℤ → Bool
is_one (pos n) = n == 1
is_one (negsuc n) = false

unfoldable pub check_daemon : Daemon → Result ConfigError Daemon
unfolding is_one bad_path any
check_daemon c =
    if not (is_one c.version)
    then err unsupported_version
    else if not c.require_peer_credentials || c.allow_non_root
    then err peer_credentials
    else if any bad_path (c.socket_path ∷ c.database_path ∷ c.policy_path ∷ [])
    then err not_absolute
    else if bad_output c.output
    then err invalid_output
    else if bad_limits c
    then err invalid_limits
    else if not (length c.allowed_environment == 0)
    then err environment_not_supported
    else ok c

-- `decode` is the file's content decoded over the defaults.
unfoldable pub load_daemon : (Daemon → Option Daemon) → Result ConfigError Daemon
unfolding check_daemon
load_daemon decode = elim (decode defaults) [ none ↦ err not_decoded | some c ↦ check_daemon c ]
