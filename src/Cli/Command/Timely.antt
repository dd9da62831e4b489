-- ===== src/Cli/Command/Timely.antt =====
-- The timeout that `parse` leaves, in milliseconds.
use shudo.Prelude.{
  ℕ, ◌/◌, ◌≤◌, ◌≡◌, refl, true, Option, none, some, List, [], ◌∷◌, Bytes, ℤ, pos, negsuc, Result,
  ok, err, arith, ok_inj, err_and_ok,
}
use mathlib.Core.Path.{subst}
use shudo.Config.{is_outside}
use shudo.Cli.Parse.{
  Options, ParseError, bad_timeout, Word, separator, command_word, reason_word, timeout_word,
  detach_word, json_word, verbose_word, env_word, help_word, other_word, word_of, check_timeout,
  parse_options, default_options, without_exec, with_command, parse,
}
use shudo.Cli.Command.{milliseconds}

-- A timeout that the daemon takes, in milliseconds.
abbrev pub IsTimely : ℕ → Type 0
IsTimely ms = (1000 ≤ ms) × (ms ≤ 86400000)

check_timeout-IsTimely :
    (d : Option ℤ) (t : ℤ) → check_timeout d ≡ some t → IsTimely (milliseconds t)
unfolding check_timeout is_outside shudo.Config.int_lt milliseconds
check_timeout-IsTimely none t h = cc
check_timeout-IsTimely (some (pos n)) t h =
    subst (λ (x : ℤ). IsTimely (milliseconds x)) {x = pos n} {y = t} (ground arith) (in_bounds n h)
  where
    in_bounds : (n : ℕ) → check_timeout (some (pos n)) ≡ some t → IsTimely (n / 1000000)
    in_bounds n h = (ground arith, ground arith)
check_timeout-IsTimely (some (negsuc n)) t h = cc

-- What the rest of the arguments gives is timely if the options so far are.
abbrev FromTimely : (Bytes → Option ℤ) → List Bytes → Options → Type 0
FromTimely duration arguments r =
    (o : Options)
    → IsTimely (milliseconds o.timeout)
    → parse_options duration o arguments ≡ ok r
    → IsTimely (milliseconds r.timeout)

ended-IsTimely :
    {o r : Options}
    → IsTimely (milliseconds o.timeout)
    → ◌≡◌ {A = Result ParseError Options} (ok o) (ok r)
    → IsTimely (milliseconds r.timeout)
ended-IsTimely {o} {r} p h =
    subst (λ (x : Options). IsTimely (milliseconds x.timeout)) {x = o} {y = r} (ok_inj h) p

timeout-IsTimely :
    (duration : Bytes → Option ℤ) (o : Options) (rest : List Bytes) (r : Options) (d t : Option ℤ)
    → FromTimely duration rest r
    → check_timeout d ≡ t
    → (elim t [
      | none ↦ err bad_timeout
      | some n ↦ parse_options duration (record o { timeout = n }) rest
    ])
      ≡ ok r
    → IsTimely (milliseconds r.timeout)
timeout-IsTimely duration o rest r d none later e h = cc
timeout-IsTimely duration o rest r d (some n) later e h =
    later (record o { timeout = n }) (check_timeout-IsTimely d n e) h

one_word :
    (duration : Bytes → Option ℤ) (o : Options) (value : Bytes) (r : Options) (w : Word)
    → word_of value ≡ w
    → IsTimely (milliseconds o.timeout)
    → parse_options duration o (value ∷ []) ≡ ok r
    → IsTimely (milliseconds r.timeout)
unfolding parse_options
one_word duration o value r separator e p h = ended-IsTimely p (rw (parse_options, e) at h)
one_word duration o value r _ e p h = ground arith

more_words :
    (duration : Bytes → Option ℤ) (o : Options) (value text : Bytes) (rest : List Bytes)
    (r : Options) (w : Word)
    → word_of value ≡ w
    → FromTimely duration rest r
    → FromTimely duration (text ∷ rest) r
    → IsTimely (milliseconds o.timeout)
    → parse_options duration o (value ∷ text ∷ rest) ≡ ok r
    → IsTimely (milliseconds r.timeout)
unfolding parse_options
more_words duration o value text rest r separator e later next p h =
    ended-IsTimely p (rw (parse_options, e) at h)
more_words duration o value text rest r command_word e later next p h =
    ended-IsTimely p (rw (parse_options, e) at h)
more_words duration o value text rest r reason_word e later next p h =
    later (record o { reason = text }) p (rw (parse_options, e) at h)
more_words duration o value text rest r timeout_word e later next p h =
    timeout-IsTimely duration o rest r (duration text) (check_timeout (duration text)) later refl
      (rw (parse_options, e) at h)
more_words duration o value text rest r detach_word e later next p h =
    next (record o { detach = true }) p (rw (parse_options, e) at h)
more_words duration o value text rest r json_word e later next p h =
    next (record o { json = true }) p (rw (parse_options, e) at h)
more_words duration o value text rest r verbose_word e later next p h =
    next (record o { verbose = true }) p (rw (parse_options, e) at h)
more_words duration o value text rest r env_word e later next p h =
    err_and_ok (rw (parse_options, e) at h)
more_words duration o value text rest r help_word e later next p h =
    err_and_ok (rw (parse_options, e) at h)
more_words duration o value text rest r other_word e later next p h =
    err_and_ok (rw (parse_options, e) at h)

parse_options-IsTimely :
    (duration : Bytes → Option ℤ) (arguments : List Bytes) (r : Options)
    → FromTimely duration arguments r
unfolding parse_options
parse_options-IsTimely duration [] r o p h = ended-IsTimely p h
parse_options-IsTimely duration (value ∷ []) r o p h =
    one_word duration o value r (word_of value) refl p h
parse_options-IsTimely duration (value ∷ text ∷ rest) r o p h =
    more_words duration o value text rest r (word_of value) refl
      (parse_options-IsTimely duration rest r) (parse_options-IsTimely duration (text ∷ rest) r) p h

pub parse-IsTimely :
    (duration : Bytes → Option ℤ) (arguments : List Bytes) (o : Options)
    → parse duration arguments ≡ ok o
    → IsTimely (milliseconds o.timeout)
unfolding parse with_command milliseconds
parse-IsTimely duration arguments o h =
    go (parse_options duration default_options (without_exec arguments)) refl h
  where
    go :
        (parsed : Result ParseError Options)
        → parse_options duration default_options (without_exec arguments) ≡ parsed
        → with_command parsed ≡ ok o
        → IsTimely (milliseconds o.timeout)
    go (err x) e g = cc
    go (ok o') e g =
        ended-IsTimely {o = o'} {r = o}
          (parse_options-IsTimely duration (without_exec arguments) o' default_options
            (omega arith, omega arith) e)
          (ground arith)
