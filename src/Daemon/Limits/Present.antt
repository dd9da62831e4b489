-- ===== src/Daemon/Limits/Present.antt =====
-- What is in progress, and that the counters of the limits count it.
use shudo.Prelude.{
  ℕ, ◌+◌, ◌≤◌, ◌≡◌, Bool, true, ◌&&◌, List, [], ◌∷◌, Bytes, length, any, if◌then◌else◌, ◌==◌,
  str_eq,
}
use shudo.Daemon.Limits.{LimitConfig, Limits, acquire_submission, acquire_watcher}
use shudo.Daemon.Limits.Admission.{LimitEvent, arrives, leaves, watches, unwatches, limit_step}

-- The submissions in progress, by their users, and the watchers, by their users and requests. They are
-- kept apart from the counters.
pub record Present : Type 0 where
  pub submitting : List ℕ
  pub watching : List (ℕ × Bytes)

abbrev pub nobody : Present
nobody = record { submitting = []; watching = [] }

unfoldable pub count {ℓ} : {A : Type ℓ} → (A → Bool) → List A → ℕ
count p [] = 0
count p (x ∷ xs) = let rest = count p xs in if p x then rest + 1 else rest

unfoldable pub remove_first {ℓ} : {A : Type ℓ} → (A → Bool) → List A → List A
remove_first p [] = []
remove_first p (x ∷ xs) = let rest = remove_first p xs in if p x then xs else x ∷ rest

abbrev pub of_user : ℕ → ℕ → Bool
of_user uid j = uid == j

abbrev pub by_user : ℕ → ℕ × Bytes → Bool
by_user uid w = uid == w.0

abbrev pub on_request : Bytes → ℕ × Bytes → Bool
on_request id w = str_eq id w.1

abbrev pub same_watcher : ℕ → Bytes → ℕ × Bytes → Bool
same_watcher uid id w = by_user uid w && on_request id w

-- What is in progress after an event: one more where the call was admitted, one less where it ends.
unfoldable pub present_step : LimitConfig → LimitEvent → Limits → Present → Present
present_step c (arrives now uid) l s =
    if (acquire_submission c now uid l).1 then record s { submitting = uid ∷ s.submitting } else s
present_step c (leaves uid) l s = record s { submitting = remove_first (of_user uid) s.submitting }
present_step c (watches uid id) l s =
    if (acquire_watcher c uid id l).1 then record s { watching = (uid, id) ∷ s.watching } else s
present_step c (unwatches uid id) l s = record s {
  watching = remove_first (same_watcher uid id) s.watching;
}

unfoldable pub run_present : LimitConfig → List LimitEvent → Limits → Present → Present
run_present c [] l s = s
run_present c (e ∷ es) l s = run_present c es (limit_step c e l) (present_step c e l s)

-- The handlers release what they have acquired, and nothing else.
abbrev pub CanHappen : LimitEvent → Present → Type 0
CanHappen (arrives now uid) s = Unit
CanHappen (leaves uid) s = any (of_user uid) s.submitting ≡ true
CanHappen (watches uid id) s = Unit
CanHappen (unwatches uid id) s = any (same_watcher uid id) s.watching ≡ true

abbrev pub Possible : LimitConfig → List LimitEvent → Limits → Present → Type 0
Possible c [] l s = Unit
Possible c (e ∷ es) l s = CanHappen e s × Possible c es (limit_step c e l) (present_step c e l s)

-- The counters are the numbers of what is in progress.
pub record Agrees (l : Limits) (s : Present) : Type 0 where
  pub of_uid : (uid : ℕ) → l.submitting uid ≡ count (of_user uid) s.submitting
  pub total : l.submitting_total ≡ length s.submitting
  pub watchers_of_uid : (uid : ℕ) → l.watchers_by_uid uid ≡ count (by_user uid) s.watching
  pub watchers_of_request :
      (id : Bytes) → l.watchers_by_request id ≡ count (on_request id) s.watching

pub record IsBounded (c : LimitConfig) (s : Present) : Type 0 where
  pub of_uid : (uid : ℕ) → count (of_user uid) s.submitting ≤ c.max_concurrent_per_uid
  pub total : length s.submitting ≤ c.max_concurrent_total
  pub watchers_of_uid : (uid : ℕ) → count (by_user uid) s.watching ≤ c.max_watchers_per_uid
  pub watchers_of_request :
      (id : Bytes) → count (on_request id) s.watching ≤ c.max_watchers_per_request
