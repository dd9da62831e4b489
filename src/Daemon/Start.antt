-- ===== src/Daemon/Start.antt =====
-- `New`: the limits that a service gets where its configuration has none.
pub mod Unchanged
use shudo.Prelude.{ℕ, ℤ, pos, negsuc, if◌then◌else◌, ◌==◌}
use shudo.Config.{Daemon}

unfoldable pub or_default : ℕ → ℤ → ℤ
or_default n (pos m) = if m == 0 then pos n else pos m
or_default n (negsuc m) = negsuc m

-- The configuration of the new service.
unfoldable pub new_config : Daemon → Daemon
unfolding or_default
new_config c = record c {
  max_concurrent_per_uid = or_default 2 c.max_concurrent_per_uid;
  max_concurrent_total = or_default 32 c.max_concurrent_total;
  max_submissions_per_minute = or_default 60 c.max_submissions_per_minute;
  max_watchers_per_uid = or_default 8 c.max_watchers_per_uid;
  max_watchers_per_request = or_default 4 c.max_watchers_per_request;
  max_executable_bytes = or_default 268435456 c.max_executable_bytes;
  retention_days = or_default 30 c.retention_days;
  max_retained_unapproved = or_default 10000 c.max_retained_unapproved;
}
