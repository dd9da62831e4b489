-- ===== src/Daemon/Limits/Agreement.antt =====
-- Every event keeps the counters equal to the numbers of what is in progress.
use shudo.Prelude.{
  ℕ, ◌+◌, ◌≡◌, refl, sym, ap, Bool, true, false, List, [], ◌∷◌, Bytes, length, any, arith,
  Bool-cases, inl, inr, if◌then◌else◌, ◌==◌, str_eq, str_eq_iff, &&-true, leb, ◌||◌, ◌-◌, ◌∙◌,
}
use shudo.Daemon.Limits.{
  LimitConfig, Limits, set_uid, set_request, acquire_submission, release_submission,
  acquire_watcher, release_watcher, is_limited, recent_times,
}
use shudo.Daemon.Limits.Admission.{
  LimitEvent, arrives, leaves, watches, unwatches, limit_step, run_limits, no_limits,
}
use shudo.Daemon.Limits.Present.{
  Present, nobody, count, remove_first, of_user, by_user, on_request, same_watcher, present_step,
  run_present, CanHappen, Possible, Agrees,
}

module _ {ℓ} {A : Type ℓ} (q : A → Bool) where
  -- What the removal takes from a count that all removed elements are in, or none.
  count-remove_first :
      (p : A → Bool) (b : Bool) (xs : List A)
      → ((x : A) → q x ≡ true → p x ≡ b)
      → any q xs ≡ true
      → count p (remove_first q xs) + (if b then 1 else 0) ≡ count p xs
  unfolding count remove_first any
  count-remove_first p b [] same there = cc
  count-remove_first p b (x ∷ xs) same there = elim (Bool-cases (q x)) [
    | inl hit ↦ rw (hit, same x hit) (ground arith)
    | inr miss ↦ ground (arith, count-remove_first p b xs same, miss)
  ]

  length-remove_first : (xs : List A) → any q xs ≡ true → length (remove_first q xs) + 1 ≡ length xs
  unfolding remove_first any
  length-remove_first [] there = cc
  length-remove_first (x ∷ xs) there = ground (arith, length-remove_first xs)

str_eq-other : (s t : Bytes) → str_eq s t ≡ false → str_eq t s ≡ false
str_eq-other s t h = elim (Bool-cases (str_eq t s)) [
  | inl same ↦ absurd (cc (h, (str_eq_iff s t).1 (sym ((str_eq_iff t s).0 same))))
  | inr other ↦ other
]

pub no_limits-Agrees : Agrees no_limits nobody
unfolding count
no_limits-Agrees = record {
  of_uid = λ j. refl;
  total = refl;
  watchers_of_uid = λ j. refl;
  watchers_of_request = λ k. refl;
}

module _ (c : LimitConfig) (l : Limits) (s : Present) (a : Agrees l s) where
  arrives-Agrees :
      (now uid : ℕ)
      → Agrees (acquire_submission c now uid l).0 (present_step c (arrives now uid) l s)
  unfolding acquire_submission present_step count set_uid
  arrives-Agrees now uid =
      elim (Bool-cases (is_limited c l uid (recent_times now (l.submission_times uid)))) [
        | inl limited ↦ rw limited (record {
          of_uid = a.of_uid;
          total = a.total;
          watchers_of_uid = a.watchers_of_uid;
          watchers_of_request = a.watchers_of_request;
        })
        | inr free ↦ rw free (record {
          of_uid = λ j. ground (arith, a.of_uid j, a.of_uid uid);
          total = ground (arith, a.total);
          watchers_of_uid = a.watchers_of_uid;
          watchers_of_request = a.watchers_of_request;
        })
      ]

  leaves-Agrees :
      (uid : ℕ)
      → any (of_user uid) s.submitting ≡ true
      → Agrees (release_submission uid l) (present_step c (leaves uid) l s)
  unfolding release_submission present_step set_uid
  leaves-Agrees uid there = record {
    of_uid = λ j.
        let removed =
          count-remove_first (of_user uid) (of_user j) (j == uid) s.submitting
            (λ x hit. ground arith) there in
        ground (arith, a.of_uid j, a.of_uid uid, removed);
    total =
        let removed = length-remove_first (of_user uid) s.submitting there in
        ground (arith, a.total, removed);
    watchers_of_uid = a.watchers_of_uid;
    watchers_of_request = a.watchers_of_request;
  }

  watches-Agrees :
      (uid : ℕ) (id : Bytes)
      → Agrees (acquire_watcher c uid id l).0 (present_step c (watches uid id) l s)
  unfolding acquire_watcher present_step count set_uid set_request
  watches-Agrees uid id =
      elim (Bool-cases (
        leb c.max_watchers_per_uid (l.watchers_by_uid uid)
        || leb c.max_watchers_per_request (l.watchers_by_request id))) [
          | inl limited ↦ rw limited (record {
            of_uid = a.of_uid;
            total = a.total;
            watchers_of_uid = a.watchers_of_uid;
            watchers_of_request = a.watchers_of_request;
          })
          | inr free ↦ rw free (record {
            of_uid = a.of_uid;
            total = a.total;
            watchers_of_uid = λ j. ground (arith, a.watchers_of_uid j, a.watchers_of_uid uid);
            watchers_of_request = λ k. counted_request k;
          })
        ]
    where
      counted_request :
          (k : Bytes)
          → set_request l.watchers_by_request id (l.watchers_by_request id + 1) k
            ≡ count (on_request k) ((uid, id) ∷ s.watching)
      counted_request k = elim (Bool-cases (str_eq id k)) [
        | inl same ↦
            let here : id ≡ k = (str_eq_iff id k).0 same in
            let back : str_eq k id ≡ true = (str_eq_iff k id).1 (sym here) in
            let was = a.watchers_of_request k in rw (same, back, here, was) refl
        | inr other ↦
            let back : str_eq k id ≡ false = str_eq-other id k other in
            rw (other, back, a.watchers_of_request k) refl
      ]

  unwatches-Agrees :
      (uid : ℕ) (id : Bytes)
      → any (same_watcher uid id) s.watching ≡ true
      → Agrees (release_watcher uid id l) (present_step c (unwatches uid id) l s)
  unfolding release_watcher present_step set_uid set_request
  unwatches-Agrees uid id there = record {
    of_uid = a.of_uid;
    total = a.total;
    watchers_of_uid = λ j.
        let removed =
          count-remove_first (same_watcher uid id) (by_user j) (j == uid) s.watching
            (λ x hit. ground arith) there in
        ground (arith, a.watchers_of_uid j, a.watchers_of_uid uid, removed);
    watchers_of_request = λ k. released_request k;
  }
    where
      released_request :
          (k : Bytes)
          → set_request l.watchers_by_request id (l.watchers_by_request id - 1) k
            ≡ count (on_request k) (remove_first (same_watcher uid id) s.watching)
      released_request k =
          let removed =
            count-remove_first (same_watcher uid id) (on_request k) (str_eq k id) s.watching
              (λ x hit.
                ap (str_eq k)
                  (sym ((str_eq_iff id x.1).0 (&&-true (by_user uid x) (on_request id x) hit).1)))
              there in
          elim (Bool-cases (str_eq id k)) [
            | inl same ↦
                let here : id ≡ k = (str_eq_iff id k).0 same in
                let back : str_eq k id ≡ true = (str_eq_iff k id).1 (sym here) in
                let was : l.watchers_by_request id ≡ count (on_request k) s.watching =
                  ap l.watchers_by_request here ∙ a.watchers_of_request k in
                ground (arith, was, removed, back, same)
            | inr other ↦
                let back : str_eq k id ≡ false = str_eq-other id k other in
                let was = a.watchers_of_request k in ground (arith, was, removed, back, other)
          ]

  limit_step-Agrees :
      (e : LimitEvent) → CanHappen e s → Agrees (limit_step c e l) (present_step c e l s)
  unfolding limit_step
  limit_step-Agrees (arrives now uid) can = arrives-Agrees now uid
  limit_step-Agrees (leaves uid) can = leaves-Agrees uid can
  limit_step-Agrees (watches uid id) can = watches-Agrees uid id
  limit_step-Agrees (unwatches uid id) can = unwatches-Agrees uid id can

pub run_present-Agrees :
    (c : LimitConfig) (es : List LimitEvent) (l : Limits) (s : Present)
    → Possible c es l s
    → Agrees l s
    → Agrees (run_limits c es l) (run_present c es l s)
unfolding run_limits run_present
run_present-Agrees c [] l s can a = a
run_present-Agrees c (e ∷ es) l s (now, later) a =
    run_present-Agrees c es (limit_step c e l) (present_step c e l s) later
      (limit_step-Agrees c l s a e now)
