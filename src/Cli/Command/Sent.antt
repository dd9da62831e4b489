-- ===== src/Cli/Command/Sent.antt =====
-- What the command line sends to the daemon.
use shudo.Cli.Command.Timely.{IsTimely, parse-IsTimely}
use shudo.Prelude.{
  ◌≡◌, ◌≤◌, refl, sym, ap, ◌∙◌, length, ◌⊎◌, inl, inr, true, false, Option, none, some, List, [],
  ◌∷◌, Bytes, is_empty, Result, ok, err, arith, Bool-cases,
}
use mathlib.Core.Path.{subst}
use shudo.Strings.{trim_space}
use shudo.Strings.Trimmed.{trim_space-not_empty}
use shudo.Daemon.Submission.{SubmitRequest}
use shudo.Cli.Select.{Terminal, no_terminal, read_failed, line}
use shudo.Cli.Parse.{Options, ParseError, parse}
use shudo.Daemon.Submit.{SubmitResponse}
use shudo.Cli.Command.{
  CommandEnv, prompt, PromptError, reason_of, run_command, after_submit, submit_command,
  submit_message, with_reason, run_parsed,
}

-- What the terminal gave is one line, trimmed, with a byte left and at most 4096.
pub record Prompted (tty : Terminal) (reason : Bytes) : Type 0 where
  pub typed : Bytes
  pub read : tty ≡ line typed
  pub trimmed : reason ≡ trim_space typed
  pub not_empty : is_empty reason ≡ false
  pub short : length reason ≤ 4096

-- What a message that is sent has to do with the arguments.
pub record Sendable (e : CommandEnv) (arguments : List Bytes) (q : SubmitRequest) : Type 0 where
  pub options : Options
  pub parsed : parse e.duration arguments ≡ ok options
  pub command : options.command ≡ q.executable ∷ q.argv
  pub timely : IsTimely q.timeout_ms
  pub cwd : e.cwd ≡ some q.cwd
  pub no_env : q.env ≡ []
  pub reason : is_empty (trim_space q.reason) ≡ false
  pub source : (options.reason ≡ q.reason) ⊎ Prompted e.tty q.reason

after_submit-sent :
    (e : CommandEnv) (o : Options) (q : SubmitRequest) (answer : Option SubmitResponse)
    → (after_submit e o q answer).sent ≡ some q
unfolding after_submit
after_submit-sent e o q none = refl
after_submit-sent e o q (some response) = ground arith

prompt-Prompted : (tty : Terminal) (reason : Bytes) → prompt tty ≡ ok reason → Prompted tty reason
unfolding prompt
prompt-Prompted no_terminal reason h = cc
prompt-Prompted read_failed reason h = cc
prompt-Prompted (line typed) reason h =
    let same : trim_space typed ≡ reason = ground arith in
    record {
      typed = typed;
      read = refl;
      trimmed = sym same;
      not_empty = ground arith;
      short = ground arith;
    }

Prompted-not_empty :
    (tty : Terminal) (reason : Bytes) → Prompted tty reason → is_empty (trim_space reason) ≡ false
Prompted-not_empty tty reason p =
    let left : is_empty (trim_space p.typed) ≡ false = ap is_empty (sym p.trimmed) ∙ p.not_empty in
    ap (λ s. is_empty (trim_space s)) p.trimmed ∙ trim_space-not_empty p.typed left

reason_of-cases :
    (e : CommandEnv) (o : Options) (reason : Bytes)
    → reason_of e o ≡ ok reason
    → (is_empty (trim_space reason) ≡ false) × ((o.reason ≡ reason) ⊎ Prompted e.tty reason)
unfolding reason_of
reason_of-cases e o reason h = elim (Bool-cases (is_empty (trim_space o.reason))) [
  | inl b ↦
      let p = prompt-Prompted e.tty reason (rw (reason_of, b) at h) in
      (Prompted-not_empty e.tty reason p, inr p)
  | inr b ↦
      let same : o.reason ≡ reason = ground arith in
      (subst (λ (s : Bytes). is_empty (trim_space s) ≡ false) same b, inl same)
]

module _ (e : CommandEnv) (o : Options) (reason : Bytes) (q : SubmitRequest) (a : Bytes)
    (argv : List Bytes) where
  no_cwd_fails : e.cwd ≡ none → (submit_command e o reason (a ∷ argv)).sent ≡ some q → ⊥
  unfolding submit_command
  no_cwd_fails d g = ground arith

  unconnected_fails :
      (cwd : Bytes)
      → e.cwd ≡ some cwd
      → e.connects ≡ false
      → (submit_command e o reason (a ∷ argv)).sent ≡ some q
      → ⊥
  unfolding submit_command
  unconnected_fails cwd d b g = ground arith

  message_sent :
      (cwd : Bytes)
      → e.cwd ≡ some cwd
      → e.connects ≡ true
      → (submit_command e o reason (a ∷ argv)).sent ≡ some q
      → submit_message o reason cwd a argv ≡ q
  unfolding submit_command
  message_sent cwd d b g =
      let message = submit_message o reason cwd a argv in
      let sent = after_submit-sent e o message (e.submit message) in ground arith

with_reason-Sendable :
    (e : CommandEnv) (arguments : List Bytes) (o : Options) (reason : Bytes) (q : SubmitRequest)
    → parse e.duration arguments ≡ ok o
    → reason_of e o ≡ ok reason
    → (submit_command e o reason o.command).sent ≡ some q
    → Sendable e arguments q
unfolding submit_command submit_message
with_reason-Sendable e arguments o reason q parsed r h = go o.command e.cwd refl refl h
  where
    go :
        (command : List Bytes) (cwd : Option Bytes)
        → o.command ≡ command
        → e.cwd ≡ cwd
        → (submit_command e o reason command).sent ≡ some q
        → Sendable e arguments q
    go [] cwd c d g = cc
    go (a ∷ argv) none c d g = absurd (no_cwd_fails e o reason q a argv d g)
    go (a ∷ argv) (some cwd) c d g = elim (Bool-cases e.connects) [
      | inl b ↦
          let same = message_sent e o reason q a argv cwd d b g in
          subst (Sendable e arguments) {x = submit_message o reason cwd a argv} {y = q} same
            (record {
              options = o;
              parsed = parsed;
              command = c;
              timely = parse-IsTimely e.duration arguments o parsed;
              cwd = d;
              no_env = refl;
              reason = (reason_of-cases e o reason r).0;
              source = (reason_of-cases e o reason r).1;
            })
      | inr b ↦ absurd (unconnected_fails e o reason q a argv cwd d b g)
    ]

-- Whatever a run of the command line sends to the daemon comes from arguments that are parsed: the
-- command is the one that was given, not empty, in the working directory, without environment
-- variables; its timeout is between a second and a day, the bounds in milliseconds that the daemon
-- checks; and its reason is not white space, and is that of the options, or the line that the
-- terminal was asked for, trimmed, with a byte left and at most 4096.
pub run_command-Sendable :
    (e : CommandEnv) (arguments : List Bytes) (q : SubmitRequest)
    → (run_command e arguments).sent ≡ some q
    → Sendable e arguments q
unfolding run_command run_parsed with_reason
run_command-Sendable e arguments q h = go (parse e.duration arguments) refl h
  where
    go :
        (parsed : Result ParseError Options)
        → parse e.duration arguments ≡ parsed
        → (run_parsed e parsed).sent ≡ some q
        → Sendable e arguments q
    go (err x) p g = cc
    go (ok o) p g = with_prompt (reason_of e o) refl g
      where
        with_prompt :
            (reason : Result PromptError Bytes)
            → reason_of e o ≡ reason
            → (with_reason e o reason).sent ≡ some q
            → Sendable e arguments q
        with_prompt (err x) r k = cc
        with_prompt (ok reason) r k = with_reason-Sendable e arguments o reason q p r k
