-- ===== src/Config/Bounds.antt =====
-- What an accepted configuration promises to the rest of the daemon.
use shudo.Prelude.{◌≡◌, true, false, ◌==◌, Option, none, some, length, ok, err, arith, pos}
use mathlib.Core.Path.{subst}
use shudo.Config.{
  defaults, not_decoded, Daemon, int_lt, is_outside, bad_output, bad_limits, check_daemon,
  load_daemon,
}

-- Root's environment stays fixed, the kernel's credentials are required, and every number is in its
-- range.
pub record IsSafe (c : Daemon) : Type 0 where
  pub peers : c.require_peer_credentials ≡ true
  pub root_only : c.allow_non_root ≡ false
  pub environment : length c.allowed_environment ≡ 0
  pub persisted_positive : int_lt (pos 0) c.output.persisted_bytes ≡ true
  pub persisted_bounded : int_lt (pos 104857600) c.output.persisted_bytes ≡ false
  pub per_uid : is_outside (pos 1) (pos 64) c.max_concurrent_per_uid ≡ false
  pub total : is_outside c.max_concurrent_per_uid (pos 1024) c.max_concurrent_total ≡ false
  pub rate : is_outside (pos 1) (pos 10000) c.max_submissions_per_minute ≡ false
  pub seconds : is_outside (pos 1) (pos 86400) c.max_execution_seconds ≡ false

-- The tests that an accepted configuration passed.
pub check_daemon-ok :
    (raw c : Daemon)
    → check_daemon raw ≡ ok c
    → (raw ≡ c)
      × (raw.require_peer_credentials ≡ true)
      × (raw.allow_non_root ≡ false)
      × (bad_output raw.output ≡ false)
      × (bad_limits raw ≡ false)
      × ((length raw.allowed_environment == 0) ≡ true)
unfolding check_daemon
check_daemon-ok raw c h =
    (ground arith, ground arith, ground arith, ground arith, ground arith, ground arith)

passed-IsSafe :
    (c : Daemon)
    → c.require_peer_credentials ≡ true
    → c.allow_non_root ≡ false
    → bad_output c.output ≡ false
    → bad_limits c ≡ false
    → (length c.allowed_environment == 0) ≡ true
    → IsSafe c
unfolding bad_output bad_limits
passed-IsSafe c peers root o l e = record {
  peers = peers;
  root_only = root;
  environment = ground arith;
  persisted_positive = ground arith;
  persisted_bounded = ground arith;
  per_uid = ground arith;
  total = ground arith;
  rate = ground arith;
  seconds = ground arith;
}

-- A configuration that `LoadDaemon` accepts requires the kernel's credentials, runs as root only,
-- allows no environment, stores at least one byte and at most 100 MiB of output, and has its
-- concurrency, its rate and its execution time within their ranges.
pub load_daemon-IsSafe :
    (decode : Daemon → Option Daemon) (c : Daemon) → load_daemon decode ≡ ok c → IsSafe c
unfolding load_daemon
load_daemon-IsSafe decode c h = decoded (decode defaults) h
  where
    decoded :
        (raw : Option Daemon)
        → elim raw [ none ↦ err not_decoded | some d ↦ check_daemon d ] ≡ ok c
        → IsSafe c
    decoded none e = cc
    decoded (some d) e =
        let (same, peers, root, o, l, environment) = check_daemon-ok d c e in
        subst IsSafe same (passed-IsSafe d peers root o l environment)
