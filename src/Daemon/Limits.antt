-- ===== src/Daemon/Limits.antt =====
-- The admission limits: `acquireSubmission`, `releaseSubmission`, `acquireWatcher` and
-- `releaseWatcher`. A Go map of counters is a function that is 0 where the map has no key, and a
-- `delete` of a key with the count 0 changes nothing of it.
pub mod Admission
pub mod Present
pub mod Agreement
pub mod Bounded
use shudo.Prelude.{
  ℕ, ◌+◌, ◌-◌, Bool, true, false, ◌||◌, Option, none, some, List, [], ◌∷◌, ◌++◌, Bytes, length,
  if◌then◌else◌, ltb, leb, ◌==◌, str_eq,
}

pub record LimitConfig : Type 0 where
  pub max_concurrent_per_uid : ℕ
  pub max_concurrent_total : ℕ
  pub max_submissions_per_minute : ℕ
  pub max_watchers_per_uid : ℕ
  pub max_watchers_per_request : ℕ

pub record Limits : Type 0 where
  pub submitting : ℕ → ℕ
  pub submitting_total : ℕ
  pub submission_times : ℕ → List ℕ
  pub watchers_by_uid : ℕ → ℕ
  pub watchers_by_request : Bytes → ℕ

unfoldable pub set_uid {ℓ} : {V : Type ℓ} → (ℕ → V) → ℕ → V → ℕ → V
set_uid f uid v j = if uid == j then v else f j

unfoldable pub set_request : (Bytes → ℕ) → Bytes → ℕ → Bytes → ℕ
set_request f id v j = if str_eq id j then v else f j

-- Times are in nanoseconds.
abbrev pub minute : ℕ
minute = 60000000000

-- The loop that keeps the times after `now - minute`.
unfoldable pub recent_times : ℕ → List ℕ → List ℕ
recent_times now [] = []
recent_times now (s ∷ times) =
    let rest = recent_times now times in if ltb now (s + minute) then s ∷ rest else rest

unfoldable pub is_limited : LimitConfig → Limits → ℕ → List ℕ → Bool
is_limited c l uid times =
    leb c.max_submissions_per_minute (length times)
    || leb c.max_concurrent_per_uid (l.submitting uid)
    || leb c.max_concurrent_total l.submitting_total

-- The Boolean says whether the submission is admitted.
unfoldable pub acquire_submission : LimitConfig → ℕ → ℕ → Limits → Limits × Bool
unfolding recent_times set_uid is_limited
acquire_submission c now uid l =
    let times = recent_times now (l.submission_times uid) in
    if is_limited c l uid times
    then (record l { submission_times = set_uid l.submission_times uid times }, false)
    else (
      record l {
        submission_times = set_uid l.submission_times uid (times ++ now ∷ []);
        submitting = set_uid l.submitting uid (l.submitting uid + 1);
        submitting_total = l.submitting_total + 1;
      },
      true,
    )

-- It runs only after an admission, so no count is 0.
unfoldable pub release_submission : ℕ → Limits → Limits
unfolding set_uid
release_submission uid l = record l {
  submitting = set_uid l.submitting uid (l.submitting uid - 1);
  submitting_total = l.submitting_total - 1;
}

unfoldable pub acquire_watcher : LimitConfig → ℕ → Bytes → Limits → Limits × Bool
unfolding set_uid set_request
acquire_watcher c uid id l =
    if leb c.max_watchers_per_uid (l.watchers_by_uid uid)
      || leb c.max_watchers_per_request (l.watchers_by_request id)
    then (l, false)
    else (
      record l {
        watchers_by_uid = set_uid l.watchers_by_uid uid (l.watchers_by_uid uid + 1);
        watchers_by_request = set_request l.watchers_by_request id (l.watchers_by_request id + 1);
      },
      true,
    )

unfoldable pub release_watcher : ℕ → Bytes → Limits → Limits
unfolding set_uid set_request
release_watcher uid id l = record l {
  watchers_by_uid = set_uid l.watchers_by_uid uid (l.watchers_by_uid uid - 1);
  watchers_by_request = set_request l.watchers_by_request id (l.watchers_by_request id - 1);
}
