-- ===== src/State/Life/Lawful.antt =====
-- What follows for every history: the status of a request says what became of its ballot.
use shudo.Prelude.{
  ◌≡◌, refl, ◌∙◌, sym, inl, inr, ◌⊎◌, true, false, Option, none, some, [], Bytes, arith, some_inj,
}
use mathlib.Core.Path.{subst}
use shudo.Model.{
  Status, created, queued, synced, waiting, approved, denied, executing, succeeded, failed,
}
use shudo.State.Sql.{select_first, exists_where}
use shudo.State.Tables.{Tables}
use shudo.State.Requests.{can_move}
use shudo.State.Life.{
  Brief, Ballot, blank, cast, spent, View, is_gated, Step, idle, submitted, moved, decided, begun,
  removed, Steps, here, after, view, ballot_of,
}

-- The ballot that a status goes with, if it tells.
unfoldable pub required : Status → Option Ballot
required created = some blank
required queued = some blank
required synced = some blank
required waiting = some blank
required approved = some cast
required denied = some cast
required executing = some spent
required succeeded = some spent
required failed = some spent
required _ = none

pub record IsLawful (v : View) : Type 0 where
  pub absent : v.request ≡ none → v.ballot ≡ blank
  pub told :
      (b : Brief) → v.request ≡ some b → (x : Ballot) → required b.status ≡ some x → v.ballot ≡ x

-- A move to a status that is not gated comes from one with the same ballot.
required-move :
    (s next : Status) (x : Ballot)
    → can_move s next ≡ true
    → is_gated next ≡ false
    → required next ≡ some x
    → required s ≡ some x
unfolding required can_move is_gated
required-move created next x h g r = ground arith
required-move _ next x h g r = ground arith

some_inj-brief : {b b' : Brief} {o : Option Brief} → o ≡ some b → o ≡ some b' → b ≡ b'
some_inj-brief p q = some_inj (sym p ∙ q)

-- A view that has the request `b`.
IsLawful-at :
    {v : View} (b : Brief)
    → v.request ≡ some b
    → ((x : Ballot) → required b.status ≡ some x → v.ballot ≡ x)
    → IsLawful v
IsLawful-at b e h = record {
  absent = λ none'. cc;
  told = λ b' e' x r.
      h x (subst (λ (s : Brief). required s.status ≡ some x) (sym (some_inj-brief e e')) r);
}

decided-required :
    (next : Status) (x : Ballot)
    → (next ≡ approved) ⊎ (next ≡ denied)
    → required next ≡ some x
    → cast ≡ x
unfolding required
decided-required next x (inl e) r = some_inj (rw e at r)
decided-required next x (inr e) r = some_inj (rw e at r)

Step-IsLawful : (v w : View) → Step v w → IsLawful v → IsLawful w
unfolding required
Step-IsLawful v w (idle e) l = subst IsLawful (sym e) l
Step-IsLawful v w (submitted b gone new e) l =
    subst IsLawful (sym e)
      (IsLawful-at {v = record v { request = some b }} b refl (λ x r. l.absent gone ∙ ground arith))
Step-IsLawful v w (moved b next there edge plain e) l = subst IsLawful (sym e) (
    IsLawful-at {v = record v { request = some (record b { status = next }) }}
      (record b { status = next }) refl
      (λ x r. l.told b there x (required-move b.status next x edge plain r)))
Step-IsLawful v w (decided b next there waits yes' e) l =
    subst IsLawful (sym e)
      (IsLawful-at (record b { status = next }) refl (λ x r. decided-required next x yes' r))
Step-IsLawful v w (begun b there approved' e) l =
    subst IsLawful (sym e) (IsLawful-at (record b { status = executing }) refl (λ x r. some_inj r))
Step-IsLawful v w (removed free e) l =
    subst IsLawful (sym e) (record { absent = λ gone. free; told = λ b there. cc })

pub Steps-IsLawful : {v w : View} → Steps v w → IsLawful v → IsLawful w
Steps-IsLawful here l = l
Steps-IsLawful (after {v} {w} step steps) l = Steps-IsLawful steps (Step-IsLawful v w step l)

pub empty-IsLawful :
    (id : Bytes) (t : Tables) → t.requests ≡ [] → t.approvals ≡ [] → IsLawful (view id t)
unfolding view ballot_of select_first exists_where
empty-IsLawful id t r a =
    let gone : (view id t).request ≡ none = rw r refl in
    record { absent = λ none'. rw a refl; told = λ b there. absurd (none_and_some gone there) }
  where
    none_and_some : {b : Brief} {o : Option Brief} → o ≡ none → o ≡ some b → ⊥
    none_and_some p q = cc
