-- ===== src/Daemon/Start/Unchanged.antt =====
-- A configuration that was loaded has every limit.
use shudo.Prelude.{ℕ, ◌≡◌, refl, true, false, Option, none, some, arith, ℤ, pos, negsuc, ok, err}
use mathlib.Core.Path.{subst}
use shudo.Config.{
  Daemon, defaults, not_decoded, int_lt, is_outside, bad_limits, check_daemon, load_daemon,
}
use shudo.Config.Bounds.{check_daemon-ok}
use shudo.Daemon.Start.{or_default, new_config}

or_default-positive : (n : ℕ) (x : ℤ) → int_lt (pos 0) x ≡ true → or_default n x ≡ x
unfolding or_default int_lt
or_default-positive n (pos m) h = ground arith
or_default-positive n (negsuc m) h = refl

-- What is not below a positive number is positive.
positive_above :
    (low high x : ℤ)
    → int_lt (pos 0) low ≡ true
    → is_outside low high x ≡ false
    → int_lt (pos 0) x ≡ true
unfolding is_outside int_lt
positive_above (pos l) high (pos m) p h = ground arith
positive_above (pos l) high (negsuc m) p h = absurd (ground arith)
positive_above (negsuc l) high x p h = cc

one_positive : int_lt (pos 0) (pos 1) ≡ true
unfolding int_lt
one_positive = refl

-- A limit that is not below 1 is kept.
or_default-from_one : (n : ℕ) (high x : ℤ) → is_outside (pos 1) high x ≡ false → or_default n x ≡ x
or_default-from_one n high x h =
    or_default-positive n x (positive_above (pos 1) high x one_positive h)

bytes_positive : int_lt (pos 0) (pos 1048576) ≡ true
unfolding int_lt
bytes_positive = refl

hundred_positive : int_lt (pos 0) (pos 100) ≡ true
unfolding int_lt
hundred_positive = refl

bad_limits-kept : (c : Daemon) → bad_limits c ≡ false → new_config c ≡ c
unfolding new_config bad_limits
bad_limits-kept c h =
    let uid : is_outside (pos 1) (pos 64) c.max_concurrent_per_uid ≡ false = ground arith in
    let total : is_outside c.max_concurrent_per_uid (pos 1024) c.max_concurrent_total ≡ false =
      ground arith in
    let rate : is_outside (pos 1) (pos 10000) c.max_submissions_per_minute ≡ false = ground arith in
    let watchers : is_outside (pos 1) (pos 1000) c.max_watchers_per_uid ≡ false = ground arith in
    let each : is_outside (pos 1) c.max_watchers_per_uid c.max_watchers_per_request ≡ false =
      ground arith in
    let bytes : is_outside (pos 1048576) (pos 4294967296) c.max_executable_bytes ≡ false =
      ground arith in
    let days : is_outside (pos 1) (pos 3650) c.retention_days ≡ false = ground arith in
    let kept : is_outside (pos 100) (pos 1000000) c.max_retained_unapproved ≡ false =
      ground arith in
    let some_uid = positive_above (pos 1) (pos 64) c.max_concurrent_per_uid one_positive uid in
    rw
      (
        or_default-from_one 2 (pos 64) c.max_concurrent_per_uid uid,
        or_default-positive 32 c.max_concurrent_total (
            positive_above c.max_concurrent_per_uid (pos 1024) c.max_concurrent_total some_uid
              total),
        or_default-from_one 60 (pos 10000) c.max_submissions_per_minute rate,
        or_default-from_one 8 (pos 1000) c.max_watchers_per_uid watchers,
        or_default-from_one 4 c.max_watchers_per_uid c.max_watchers_per_request each,
        or_default-positive 268435456 c.max_executable_bytes (
            positive_above (pos 1048576) (pos 4294967296) c.max_executable_bytes bytes_positive
              bytes),
        or_default-from_one 30 (pos 3650) c.retention_days days,
        or_default-positive 10000 c.max_retained_unapproved (
            positive_above (pos 100) (pos 1000000) c.max_retained_unapproved hundred_positive kept),
      )
      refl

-- `New` changes nothing of a configuration that `LoadDaemon` accepts: a limit of 0, which `New`
-- replaces, is refused before.
pub load_daemon-new_config :
    (decode : Daemon → Option Daemon) (c : Daemon) → load_daemon decode ≡ ok c → new_config c ≡ c
unfolding load_daemon
load_daemon-new_config decode c h = decoded (decode defaults) h
  where
    decoded :
        (raw : Option Daemon)
        → elim raw [ none ↦ err not_decoded | some d ↦ check_daemon d ] ≡ ok c
        → new_config c ≡ c
    decoded none e = cc
    decoded (some d) e =
        let (same, peers, root, o, l, environment) = check_daemon-ok d c e in
        subst (λ (x : Daemon). new_config x ≡ x) same (bad_limits-kept d l)
