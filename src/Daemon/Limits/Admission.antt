-- ===== src/Daemon/Limits/Admission.antt =====
-- The limits hold at every moment, and in every minute.
use shudo.Prelude.{
  ℕ, ◌+◌, ◌≤◌, ◌≡◌, false, ◌&&◌, List, [], ◌∷◌, ◌++◌, Bytes, length, length-append, arith,
  Bool-cases, inl, inr, if◌then◌else◌, ◌==◌,
}
use shudo.Daemon.Limits.{
  LimitConfig, Limits, recent_times, is_limited, acquire_submission, release_submission,
  acquire_watcher, release_watcher,
}

-- What happens to the limits: submissions and watchers come and go.
pub data LimitEvent : Type 0 where
  arrives : ℕ → ℕ → LimitEvent
  leaves : ℕ → LimitEvent
  watches : ℕ → Bytes → LimitEvent
  unwatches : ℕ → Bytes → LimitEvent

unfoldable pub limit_step : LimitConfig → LimitEvent → Limits → Limits
limit_step c (arrives now uid) l = (acquire_submission c now uid l).0
limit_step c (leaves uid) l = release_submission uid l
limit_step c (watches uid id) l = (acquire_watcher c uid id l).0
limit_step c (unwatches uid id) l = release_watcher uid id l

unfoldable pub run_limits : LimitConfig → List LimitEvent → Limits → Limits
run_limits c [] l = l
run_limits c (e ∷ es) l = run_limits c es (limit_step c e l)

abbrev pub no_limits : Limits
no_limits = record {
  submitting = λ uid. 0;
  submitting_total = 0;
  submission_times = λ uid. [];
  watchers_by_uid = λ uid. 0;
  watchers_by_request = λ id. 0;
}

pub record Within (c : LimitConfig) (l : Limits) : Type 0 where
  pub per_uid : (uid : ℕ) → l.submitting uid ≤ c.max_concurrent_per_uid
  pub total : l.submitting_total ≤ c.max_concurrent_total
  pub rate : (uid : ℕ) → length (l.submission_times uid) ≤ c.max_submissions_per_minute
  pub watchers_of_uid : (uid : ℕ) → l.watchers_by_uid uid ≤ c.max_watchers_per_uid
  pub watchers_of_request : (id : Bytes) → l.watchers_by_request id ≤ c.max_watchers_per_request

pub no_limits-Within : (c : LimitConfig) → Within c no_limits
no_limits-Within c = record {
  per_uid = λ uid. omega arith;
  total = omega arith;
  rate = λ uid. omega arith;
  watchers_of_uid = λ uid. omega arith;
  watchers_of_request = λ id. omega arith;
}

length-recent_times : (now : ℕ) (times : List ℕ) → length (recent_times now times) ≤ length times
unfolding recent_times
length-recent_times now [] = omega arith
length-recent_times now (s ∷ times) = ground (arith, length-recent_times now times)

admitted_rate :
    (c : LimitConfig) (l : Limits) (uid now : ℕ) (times : List ℕ)
    → is_limited c l uid times ≡ false
    → (length (times ++ now ∷ []) ≤ c.max_submissions_per_minute)
      × (l.submitting uid + 1 ≤ c.max_concurrent_per_uid)
      × (l.submitting_total + 1 ≤ c.max_concurrent_total)
unfolding is_limited
admitted_rate c l uid now times h = rw length-append (ground arith)

acquire_submission-Within :
    (c : LimitConfig) (now uid : ℕ) (l : Limits)
    → Within c l
    → Within c (acquire_submission c now uid l).0
unfolding acquire_submission
acquire_submission-Within c now uid l w =
    let times = recent_times now (l.submission_times uid) in
    let fewer = length-recent_times now (l.submission_times uid) in
    elim (Bool-cases (is_limited c l uid times)) [
      | inl limited ↦ rw limited (record {
        per_uid = w.per_uid;
        total = w.total;
        rate = λ j. ground (arith, w.rate j, w.rate uid, fewer);
        watchers_of_uid = w.watchers_of_uid;
        watchers_of_request = w.watchers_of_request;
      })
      | inr free ↦
          let (r, p, s) = admitted_rate c l uid now times free in
          rw free (record {
            per_uid = λ j. ground (arith, w.per_uid j, p);
            total = s;
            rate = λ j. ground (arith, w.rate j, r);
            watchers_of_uid = w.watchers_of_uid;
            watchers_of_request = w.watchers_of_request;
          })
    ]

acquire_watcher-Within :
    (c : LimitConfig) (uid : ℕ) (id : Bytes) (l : Limits)
    → Within c l
    → Within c (acquire_watcher c uid id l).0
unfolding acquire_watcher
acquire_watcher-Within c uid id l w = record {
  per_uid = λ j. ground (arith, w.per_uid j);
  total = ground (arith, w.total);
  rate = λ j. ground (arith, w.rate j);
  watchers_of_uid = λ j. ground (arith, w.watchers_of_uid j);
  watchers_of_request = λ j. ground (arith, w.watchers_of_request j);
}

limit_step-Within :
    (c : LimitConfig) (e : LimitEvent) (l : Limits) → Within c l → Within c (limit_step c e l)
unfolding limit_step release_submission release_watcher
limit_step-Within c (arrives now uid) l w = acquire_submission-Within c now uid l w
limit_step-Within c (leaves uid) l w = record {
  per_uid = λ j. ground (arith, w.per_uid j, w.per_uid uid);
  total = ground (arith, w.total);
  rate = w.rate;
  watchers_of_uid = w.watchers_of_uid;
  watchers_of_request = w.watchers_of_request;
}
limit_step-Within c (watches uid id) l w = acquire_watcher-Within c uid id l w
limit_step-Within c (unwatches uid id) l w = record {
  per_uid = w.per_uid;
  total = w.total;
  rate = w.rate;
  watchers_of_uid = λ j. ground (arith, w.watchers_of_uid j, w.watchers_of_uid uid);
  watchers_of_request = λ j. ground (arith, w.watchers_of_request j, w.watchers_of_request id);
}

-- Whatever submissions and watchers come and go, no user has more submissions in progress or
-- watchers than the limits, no request has more watchers, and the total of submissions is within
-- its limit.
pub run_limits-Within :
    (c : LimitConfig) (es : List LimitEvent) (l : Limits)
    → Within c l
    → Within c (run_limits c es l)
unfolding run_limits
run_limits-Within c [] l w = w
run_limits-Within c (e ∷ es) l w =
    run_limits-Within c es (limit_step c e l) (limit_step-Within c e l w)

-- When the submissions of one user were admitted.
admitted_at : LimitConfig → ℕ → LimitEvent → Limits → List ℕ
admitted_at c uid (arrives now j) l =
    if (j == uid) && (acquire_submission c now j l).1 then now ∷ [] else []
admitted_at c uid _ l = []

unfoldable pub admissions : LimitConfig → ℕ → List LimitEvent → Limits → List ℕ
unfolding admitted_at
admissions c uid [] l = []
admissions c uid (e ∷ es) l = admitted_at c uid e l ++ admissions c uid es (limit_step c e l)

-- Every submission comes at `end` or before.
abbrev pub AllBefore : ℕ → List LimitEvent → Type 0
AllBefore end [] = Unit
AllBefore end (arrives now uid ∷ es) = (now ≤ end) × AllBefore end es
AllBefore end (_ ∷ es) = AllBefore end es

-- The list that the admission of a user is counted on.
times_after : LimitConfig → ℕ → ℕ → Limits → List ℕ
times_after c now j l =
    recent_times now (l.submission_times j)
    ++ (if (acquire_submission c now j l).1 then now ∷ [] else [])
