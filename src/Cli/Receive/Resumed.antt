-- ===== src/Cli/Receive/Resumed.antt =====
-- However often the streams break, each chunk is written once and in order.
use shudo.Prelude.{
  ℕ, ◌+◌, ◌≡◌, refl, sym, ap, ◌∙◌, ◌⊎◌, inl, inr, false, Option, none, some, List, [], ◌∷◌, ◌++◌,
  Bytes, arith, All, ltb, Bool-cases,
}
use mathlib.Core.List.{map, append_assoc, append-nil}
use mathlib.Core.Path.{subst}
use shudo.State.Sql.{select_where}
use shudo.State.Tables.{Tables, OutputChunk, chunk_of}
use shudo.State.Output.{chunks_from}
use shudo.Daemon.Watch.{LocalEvent, output_event, finished_event, StateEvent}
use shudo.Daemon.Watch.Chunks.{Ascending, chunks_from-next, chunks_from-passes, cons_inj}
use shudo.Cli.Receive.{
  Exit, exit_of, Received, receive, Attempt, after_stream, next_attempt, run_watch,
}

-- The events are the first ones of a whole watch from a number on: the chunks, and the last event.
abbrev pub IsCut : List OutputChunk → StateEvent → List LocalEvent → Type 0
IsCut chunks last events =
    (rest : List LocalEvent) × (map output_event chunks ++ finished_event last ∷ []
      ≡ events ++ rest)

-- What was written are the first chunks; and at the exit, all of them.
pub record Resumed (chunks : List OutputChunk) (last : StateEvent) (r : Received) : Type 0 where
  pub left : List OutputChunk
  pub in_order : chunks ≡ r.written ++ left
  pub at_exit : (r.exit ≡ none) ⊎ ((left ≡ []) × (r.exit ≡ some (exit_of last)))

finished_inj : {a b : StateEvent} → finished_event a ≡ finished_event b → a ≡ b
finished_inj e = cc

none_and_some {ℓ} : {P : Type ℓ} {e : Exit} → ◌≡◌ {A = Option Exit} none (some e) → P
none_and_some h = cc

output_inj : {a b : OutputChunk} → output_event a ≡ output_event b → a ≡ b
output_inj e = cc

module _ (t : Tables) (id : Bytes) (last : StateEvent)
    (ascending : Ascending (select_where (chunk_of id) t.output_chunks)) where
  -- A chunk that is new, and what follows it.
  written-first :
      (next : ℕ) (k : OutputChunk) (ks : List OutputChunk) (events : List LocalEvent)
      → ltb k.sequence next ≡ false
      → (r : Resumed ks last (receive (k.sequence + 1) events))
      → chunks_from t id (receive (k.sequence + 1) events).next ≡ r.left
      → (r : Resumed (k ∷ ks) last (receive next (output_event k ∷ events))) × (chunks_from t id
            (receive next (output_event k ∷ events)).next
          ≡ r.left)
  unfolding receive
  written-first next k ks events new r after =
      rw (receive, new)
        (
          record { left = r.left; in_order = ap (λ xs. k ∷ xs) r.in_order; at_exit = r.at_exit },
          after,
        )

  -- One stream.
  receive-IsCut :
      (next : ℕ) (events : List LocalEvent) (chunks : List OutputChunk)
      → chunks_from t id next ≡ chunks
      → IsCut chunks last events
      → (r : Resumed chunks last (receive next events)) × (chunks_from t id
            (receive next events).next
          ≡ r.left)
  unfolding receive
  receive-IsCut next [] chunks c cut =
      (record { left = chunks; in_order = refl; at_exit = inl refl }, c)
  receive-IsCut next (output_event k ∷ events) [] c (rest, cut) = cc
  receive-IsCut next (finished_event e ∷ events) [] c (rest, cut) = (
    record {
      left = [];
      in_order = refl;
      at_exit = inr (refl, ap (λ x. some (exit_of x)) (sym (finished_inj (cons_inj cut).0)));
    },
    c,
  )
  receive-IsCut next (finished_event e ∷ events) (k ∷ ks) c (rest, cut) = cc
  receive-IsCut next (output_event q ∷ events) (k ∷ ks) c (rest, cut) =
      let (head, tail) = cons_inj cut in
      let same : k ≡ q = output_inj head in
      let low = chunks_from-passes t id next k ks ascending c in
      let new : ltb k.sequence next ≡ false = ground (arith, low) in
      let (r, after) =
        receive-IsCut (k.sequence + 1) events ks (chunks_from-next t id next k ks ascending c)
          (rest, tail) in
      subst
        (λ (x : OutputChunk).
          (r : Resumed (k ∷ ks) last (receive next (output_event x ∷ events))) × (chunks_from t id
              (receive next (output_event x ∷ events)).next
            ≡ r.left))
        same (written-first next k ks events new r after)

  -- A stream that breaks in a way that is tried again.
  pub record Breaks (a : Attempt) : Type 0 where
    pub cut : (next : ℕ) → IsCut (chunks_from t id next) last (a.stream next)
    pub again : after_stream a ≡ none

  next_attempt-Resumed :
      (chunks : List OutputChunk) (r rest : Received) (one : Resumed chunks last r)
      → Resumed one.left last rest
      → (x : Option Exit) → r.exit ≡ x
      → Resumed chunks last (next_attempt r x none rest)
  unfolding next_attempt
  next_attempt-Resumed chunks r rest one more (some exit) e = one
  next_attempt-Resumed chunks r rest one more none e = record {
    left = more.left;
    in_order =
        one.in_order
        ∙ ap (λ xs. r.written ++ xs) more.in_order
        ∙ sym (append_assoc r.written rest.written more.left);
    at_exit = more.at_exit;
  }

  run_watch-Resumed :
      (next : ℕ) (attempts : List Attempt)
      → All Breaks attempts
      → Resumed (chunks_from t id next) last (run_watch next attempts)
  unfolding run_watch
  run_watch-Resumed next [] b = record {
    left = chunks_from t id next;
    in_order = refl;
    at_exit = inl refl;
  }
  run_watch-Resumed next (a ∷ attempts) (b, bs) =
      let r = receive next (a.stream next) in
      let (one, after) =
        receive-IsCut next (a.stream next) (chunks_from t id next) refl (b.cut next) in
      let more = run_watch-Resumed r.next attempts bs in
      rw b.again (
        next_attempt-Resumed (chunks_from t id next) r (run_watch r.next attempts) one
          (subst (λ chunks. Resumed chunks last (run_watch r.next attempts)) after more) r.exit
          refl)

  -- A stream that does not break.
  pub record Unbroken (a : Attempt) : Type 0 where
    pub whole :
        (next : ℕ)
        → a.stream next ≡ map output_event (chunks_from t id next) ++ finished_event last ∷ []
    pub retried : after_stream a ≡ none

  Unbroken-Breaks : (a : Attempt) → Unbroken a → Breaks a
  Unbroken-Breaks a w = record {
    cut = λ next. ([], sym (w.whole next) ∙ sym (append-nil (a.stream next)));
    again = w.retried;
  }

  receive-exit :
      (next : ℕ) (chunks : List OutputChunk)
      → (receive next (map output_event chunks ++ finished_event last ∷ [])).exit
        ≡ some (exit_of last)
  unfolding receive
  receive-exit next [] = refl
  receive-exit next (k ∷ chunks) = elim (Bool-cases (ltb k.sequence next)) [
    | inl old ↦ rw (receive, old) (receive-exit next chunks)
    | inr new ↦ rw (receive, new) (receive-exit (k.sequence + 1) chunks)
  ]

  next_attempt-exit :
      (r rest : Received) (e : Exit) (x : Option Exit)
      → r.exit ≡ x
      → rest.exit ≡ some e
      → (e : Exit) × ((next_attempt r x none rest).exit ≡ some e)
  unfolding next_attempt
  next_attempt-exit r rest e (some x) here more = (x, here)
  next_attempt-exit r rest e none here more = (e, more)

  -- The loop ends.
  run_watch-exit :
      (next : ℕ) (attempts : List Attempt) (a : Attempt)
      → All Breaks attempts
      → Unbroken a
      → (e : Exit) × ((run_watch next (attempts ++ a ∷ [])).exit ≡ some e)
  unfolding run_watch next_attempt
  run_watch-exit next [] a b w =
      let e : (receive next (a.stream next)).exit ≡ some (exit_of last) =
        rw (w.whole next) (receive-exit next (chunks_from t id next)) in
      (exit_of last, rw (w.retried, e) e)
  run_watch-exit next (b ∷ attempts) a (h, hs) w =
      let r = receive next (b.stream next) in
      let (e, more) = run_watch-exit r.next attempts a hs w in
      rw h.again (next_attempt-exit r (run_watch r.next (attempts ++ a ∷ [])) e r.exit refl more)

  All-append :
      (attempts : List Attempt) (a : Attempt)
      → All Breaks attempts
      → Breaks a
      → All Breaks (attempts ++ a ∷ [])
  All-append [] a b h = (h, tt)
  All-append (b ∷ attempts) a (h, hs) k = (h, All-append attempts a hs k)

  -- However many streams break before, each after some of the events of a whole watch from the number
  -- that was asked for and in a way that is tried again, once a whole stream comes the command has
  -- written each stored chunk from its first number on once and in order, and exits as the last event
  -- says. The chunks are stored in the order of their numbers.
  pub run_watch-whole :
      (next : ℕ) (attempts : List Attempt) (a : Attempt)
      → All Breaks attempts
      → Unbroken a
      → ((run_watch next (attempts ++ a ∷ [])).written ≡ chunks_from t id next)
        × ((run_watch next (attempts ++ a ∷ [])).exit ≡ some (exit_of last))
  run_watch-whole next attempts a b w =
      let r =
        run_watch-Resumed next (attempts ++ a ∷ [])
          (All-append attempts a b (Unbroken-Breaks a w)) in
      let (e, exits) = run_watch-exit next attempts a b w in
      let written = (run_watch next (attempts ++ a ∷ [])).written in
      elim r.at_exit [
        | inl none_yet ↦ none_and_some (sym none_yet ∙ exits)
        | inr (empty, at_end) ↦
            (sym (r.in_order ∙ ap (λ xs. written ++ xs) empty ∙ append-nil written), at_end)
      ]
