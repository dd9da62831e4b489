-- ===== src/Cli/Receive.antt =====
-- `runCommand` after the submission: the streams of `Watch` that it opens one after the other, what
-- it writes of them, and the exit code.
pub mod Resumed
use shudo.Prelude.{
  ℕ, ◌+◌, Bool, true, false, not, Option, none, some, List, [], ◌∷◌, ◌++◌, Bytes, if◌then◌else◌,
  ltb, Result, ok, err,
}
use shudo.Model.{Status, succeeded, failed, denied, policy_rejected, expired, cancelled}
use shudo.State.Tables.{OutputChunk}
use shudo.Daemon.Watch.{LocalEvent, output_event, finished_event, StateEvent}
use shudo.Cli.Reconcile.{GrpcCode, code_canceled, code_unknown, code_internal, code_unavailable}

pub data CommandError : Type 0 where
  request_denied request_rejected request_timed_out request_cancelled : CommandError
  request_ended : Status → CommandError
  watch_failed : CommandError

-- The exit code, and the message that is printed.
pub record Exit : Type 0 where
  pub code : ℕ
  pub error : Option CommandError

-- The switch over the status of the last event; an exit code of a command is not negative.
unfoldable pub exit_of : StateEvent → Exit
exit_of e = elim e.status [
  | succeeded ↦ record { code = 0; error = none }
  | failed ↦ elim e.exit_code [
    | some code ↦ record { code = code; error = none }
    | none ↦ record { code = 1; error = none }
  ]
  | denied ↦ record { code = 1; error = some request_denied }
  | policy_rejected ↦ record { code = 1; error = some request_rejected }
  | expired ↦ record { code = 1; error = some request_timed_out }
  | cancelled ↦ record { code = 130; error = some request_cancelled }
  | _ ↦ record { code = 1; error = some (request_ended e.status) }
]

-- What one stream leaves: the chunks that were written, the next number, and the exit if it came.
pub record Received : Type 0 where
  pub written : List OutputChunk
  pub next : ℕ
  pub exit : Option Exit

abbrev pub write_before : OutputChunk → Received → Received
write_before k r = record r { written = k ∷ r.written }

-- The loop over the events of one stream, until it fails or the last event comes. A chunk with a
-- number below `next` is not written again.
unfoldable pub receive : ℕ → List LocalEvent → Received
unfolding exit_of
receive next [] = record { written = []; next = next; exit = none }
receive next (output_event k ∷ events) = elim (ltb k.sequence next) [
  | true ↦ receive next events
  | false ↦ write_before k (receive (k.sequence + 1) events)
]
receive next (finished_event e ∷ events) = record {
  written = [];
  next = next;
  exit = some (exit_of e);
}

-- `errors.Is(err, io.EOF)` is `none`.
unfoldable pub retryable_watch_error : Option GrpcCode → Bool
retryable_watch_error none = true
retryable_watch_error (some code_canceled) = true
retryable_watch_error (some code_unknown) = true
retryable_watch_error (some code_internal) = true
retryable_watch_error (some code_unavailable) = true
retryable_watch_error (some _) = false

-- `watchContextResult`: the signal cancelled the request, or its time is over.
unfoldable pub watch_context_result : Bool → Exit
watch_context_result true = record { code = 130; error = none }
watch_context_result false = record { code = 1; error = some request_timed_out }

-- One turn of the loop: the events of the stream that `Watch` opens at the next number (none if it
-- does not open), the error that ends it, whether the context is done by then or in the pause that
-- follows, and whether a signal came.
pub record Attempt : Type 0 where
  pub stream : ℕ → List LocalEvent
  pub failure : Option GrpcCode
  pub context_done : Bool
  pub interrupted : Bool
  pub done_in_pause : Bool

-- What follows a stream without an exit.
unfoldable pub after_stream : Attempt → Option Exit
unfolding retryable_watch_error watch_context_result
after_stream a =
    if a.context_done
    then some (watch_context_result a.interrupted)
    else if not (retryable_watch_error a.failure)
    then some (record { code = 1; error = some watch_failed })
    else if a.done_in_pause
    then some (watch_context_result a.interrupted)
    else none

-- An exit ends the loop, from the stream or after it.
unfoldable pub next_attempt : Received → Option Exit → Option Exit → Received → Received
next_attempt r (some exit) stops rest = r
next_attempt r none (some exit) rest = record r { exit = some exit }
next_attempt r none none rest = record rest { written = r.written ++ rest.written }

-- The loop over the attempts; the exit is `none` while it goes on.
unfoldable pub run_watch : ℕ → List Attempt → Received
unfolding receive after_stream next_attempt
run_watch next [] = record { written = []; next = next; exit = none }
run_watch next (a ∷ attempts) =
    let r = receive next (a.stream next) in
    next_attempt r r.exit (after_stream a) (run_watch r.next attempts)
