-- ===== src/Tests/ConfigRuns.antt =====
-- The default configuration is accepted.
use shudo.Prelude.{◌≡◌, refl, some, ok, pos}
use shudo.Config.{Daemon, defaults, load_daemon}
use shudo.Config.Bounds.{IsSafe, load_daemon-IsSafe}

abbrev first_version : Daemon
first_version = record defaults { version = pos 1 }

default_accepted : load_daemon (λ c. some (record c { version = pos 1 })) ≡ ok first_version
unfolding load_daemon shudo.Prelude.is_abs shudo.Prelude.contains_byte shudo.Config.bad_output
    shudo.Config.int_lt shudo.Config.bad_limits shudo.Config.is_outside
default_accepted = refl

load_daemon-IsSafe_example : IsSafe first_version
load_daemon-IsSafe_example =
    load_daemon-IsSafe (λ c. some (record c { version = pos 1 })) first_version default_accepted
