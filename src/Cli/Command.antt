-- ===== src/Cli/Command.antt =====
-- `main`, `run`, `localSocketPath`, `prompt` and `runCommand`: a command of a user, from its
-- arguments to the exit code.
pub mod Timely
pub mod Sent
use shudo.Prelude.{
  ℕ, ◌/◌, Bool, true, false, not, ◌&&◌, ◌||◌, Option, none, some, List, [], ◌∷◌, Bytes, codes,
  length, if◌then◌else◌, ltb, ◌==◌, contains_byte, is_abs, is_empty, ℤ, pos, negsuc, Result, ok,
  err,
}
use shudo.Strings.{trim_space}
use shudo.Daemon.Submission.{SubmitRequest}
use shudo.Daemon.Submit.{SubmitResponse}
use shudo.Cli.Parse.{Options, ParseError, parse, parse_admin}
use shudo.Cli.Select.{Terminal, no_terminal, read_failed, line}
use shudo.Cli.Receive.{Attempt, CommandError, Exit, Received, run_watch}

-- `value` is what `os.Getenv` has, which is empty where the variable is missing.
unfoldable pub local_socket_path : Bytes → Bytes
unfolding is_abs contains_byte
local_socket_path value =
    if is_abs value && not (contains_byte 0 value) then value else codes "/run/shudo/shudo.sock"

pub data PromptError : Type 0 where
  reason_required reason_unread reason_empty reason_too_long : PromptError

unfoldable pub prompt : Terminal → Result PromptError Bytes
unfolding trim_space is_empty
prompt no_terminal = err reason_required
prompt read_failed = err reason_unread
prompt (line s) =
    let reason = trim_space s in
    if is_empty reason
    then err reason_empty
    else if ltb 4096 (length reason)
    then err reason_too_long
    else ok reason

pub data RunError : Type 0 where
  bad_options : ParseError → RunError
  no_reason : PromptError → RunError
  no_cwd not_connected not_submitted : RunError
  ended : CommandError → RunError

-- What a run finds outside: the durations that `time.ParseDuration` reads, the terminal, the working
-- directory, whether the socket can be dialled, the answer to `Submit`, and the watching after it.
pub record CommandEnv : Type 0 where
  pub duration : Bytes → Option ℤ
  pub tty : Terminal
  pub cwd : Option Bytes
  pub connects : Bool
  pub submit : SubmitRequest → Option SubmitResponse
  pub attempts : SubmitResponse → List Attempt

-- What is printed of the answer to `Submit`.
pub data Announcement : Type 0 where
  silent prints_json prints_id prints_request : Announcement

-- What was sent, what was printed of the answer, what the streams left, and the exit; there is none
-- while the command waits.
pub record CommandRun : Type 0 where
  pub sent : Option SubmitRequest
  pub announced : Announcement
  pub received : Option Received
  pub exit : Option (ℕ × Option RunError)

abbrev pub refused : ℕ → RunError → CommandRun
refused code e = record {
  sent = none;
  announced = silent;
  received = none;
  exit = some (code, some e);
}

unfoldable pub announcement : Options → Announcement
announcement o =
    if o.json
    then prints_json
    else if o.detach
    then prints_id
    else if o.verbose
    then prints_request
    else silent

abbrev run_error : Option CommandError → Option RunError
run_error none = none
run_error (some e) = some (ended e)

abbrev run_exit : Option Exit → Option (ℕ × Option RunError)
run_exit none = none
run_exit (some exit) = some (exit.code, run_error exit.error)

-- `Duration.Milliseconds` of the nanoseconds; `parse` lets no negative timeout pass.
unfoldable pub milliseconds : ℤ → ℕ
milliseconds (pos n) = n / 1000000
milliseconds (negsuc n) = 0

-- After `Submit`.
after_submit : CommandEnv → Options → SubmitRequest → Option SubmitResponse → CommandRun
unfolding announcement
after_submit e o q none = record (refused 1 not_submitted) { sent = some q }
after_submit e o q (some response) =
    let watched = run_watch 0 (e.attempts response) in
    if o.detach
    then record {
      sent = some q;
      announced = announcement o;
      received = none;
      exit = some (0, none);
    }
    else record {
      sent = some q;
      announced = announcement o;
      received = some watched;
      exit = run_exit watched.exit;
    }

-- The message that is sent; a command is never empty after `parse`.
unfoldable pub submit_message : Options → Bytes → Bytes → Bytes → List Bytes → SubmitRequest
unfolding milliseconds
submit_message o reason cwd executable argv = record {
  executable = executable;
  argv = argv;
  cwd = cwd;
  env = [];
  reason = reason;
  timeout_ms = milliseconds o.timeout;
}

submit_command : CommandEnv → Options → Bytes → List Bytes → CommandRun
unfolding after_submit submit_message
submit_command e o reason [] = refused 1 not_submitted
submit_command e o reason (executable ∷ argv) = elim e.cwd [
  | none ↦ refused 1 no_cwd
  | some cwd ↦
      if not e.connects
      then refused 1 not_connected
      else after_submit e o (submit_message o reason cwd executable argv)
          (e.submit (submit_message o reason cwd executable argv))
]

-- A reason of white space is asked for.
unfoldable pub reason_of : CommandEnv → Options → Result PromptError Bytes
unfolding prompt trim_space is_empty
reason_of e o = if is_empty (trim_space o.reason) then prompt e.tty else ok o.reason

with_reason : CommandEnv → Options → Result PromptError Bytes → CommandRun
unfolding submit_command
with_reason e o (err x) = refused 2 (no_reason x)
with_reason e o (ok reason) = submit_command e o reason o.command

run_parsed : CommandEnv → Result ParseError Options → CommandRun
unfolding with_reason reason_of
run_parsed e (err x) = refused 2 (bad_options x)
run_parsed e (ok o) = with_reason e o (reason_of e o)

unfoldable pub run_command : CommandEnv → List Bytes → CommandRun
unfolding run_parsed
run_command e arguments = run_parsed e (parse e.duration arguments)

-- The end of `main`: an error leaves no exit code 0.
unfoldable pub main_code {ℓ} : {E : Type ℓ} → ℕ × Option E → ℕ
main_code (code, none) = code
main_code (code, some e) = if code == 0 then 1 else code
