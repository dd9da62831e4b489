-- ===== src/Daemon/Limits/Bounded.antt =====
-- The limits bound what is in progress.
use shudo.Prelude.{List}
use shudo.Daemon.Limits.{LimitConfig}
use shudo.Daemon.Limits.Admission.{
  LimitEvent, run_limits, no_limits, no_limits-Within, run_limits-Within,
}
use shudo.Daemon.Limits.Present.{nobody, run_present, Possible, Agrees, IsBounded}
use shudo.Daemon.Limits.Agreement.{no_limits-Agrees, run_present-Agrees}

-- However submissions and watchers come, and go after they have been admitted: the counters are the
-- numbers of the submissions and of the watchers in progress, and these are within the limits, those
-- of each user, those of each request, and the submissions in all.
pub run_present-IsBounded :
    (c : LimitConfig) (es : List LimitEvent)
    → Possible c es no_limits nobody
    → Agrees (run_limits c es no_limits) (run_present c es no_limits nobody)
      × IsBounded c (run_present c es no_limits nobody)
run_present-IsBounded c es can =
    let w = run_limits-Within c es no_limits (no_limits-Within c) in
    let a = run_present-Agrees c es no_limits nobody can no_limits-Agrees in
    (
      a,
      record {
        of_uid = λ j. rw (← a.of_uid j) (w.per_uid j);
        total = rw (← a.total) w.total;
        watchers_of_uid = λ j. rw (← a.watchers_of_uid j) (w.watchers_of_uid j);
        watchers_of_request = λ k. rw (← a.watchers_of_request k) (w.watchers_of_request k);
      },
    )
