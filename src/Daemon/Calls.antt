-- ===== src/Daemon/Calls.antt =====
-- The daemon over time: the calls of the broker, the goroutines that execute, the ticks of
-- `RunMaintenance`, and restarts, in any order, on one store with one codec.
pub mod Lawful
use shudo.Prelude.{ℕ, Bool, List, [], ◌∷◌, Bytes}
use shudo.State.Tables.{Codec, Tables}
use shudo.State.Requests.{TxIo}
use shudo.State.Startup.{open_store}
use shudo.Config.{Daemon}
use shudo.Daemon.Authority.{Peer}
use shudo.Daemon.Submission.{SubmitRequest, recover_approved}
use shudo.Daemon.Submit.{SubmitEnv, Service, submit}
use shudo.Daemon.Decide.{CallEnv, DecisionRequest, decide, cancel}
use shudo.Daemon.Execute.{RunEnv, execute}
use shudo.Daemon.Records.{Tick, run_tick, list_requests}

-- What each finds outside is its own; a restart is `Open` and `RecoverApproved`.
pub data Call : Type 0 where
  submits : SubmitEnv → Peer → SubmitRequest → Call
  decides : CallEnv → Peer → DecisionRequest → Bytes → Call
  cancels : CallEnv → Peer → Bytes → Call
  lists : (Bytes → Bytes) → Bytes → Peer → Bool → Call
  executes : RunEnv → Bool → Bytes → Call
  ticks : Daemon → Tick → Call
  restarts : TxIo → Bytes → Call

abbrev with_tables : Service → Tables → Service
with_tables s t = record s { tables = t }

unfoldable pub run_call : Codec → Call → Service → Service
run_call c (submits e peer input) s = (submit (record e { codec = c }) peer input s).1
run_call c (decides e peer input decision) s =
    with_tables s (decide (record e { codec = c }) peer input decision s.tables).tables
run_call c (cancels e peer id) s =
    with_tables s (cancel (record e { codec = c }) peer id s.tables).1
run_call c (lists quote now peer history) s =
    with_tables s (list_requests quote c now peer history s.tables).1
run_call c (executes e loaded id) s =
    with_tables s (execute (record e { codec = c }) loaded id s.tables).tables
run_call c (ticks config tick) s = with_tables s (run_tick c config tick s.tables)
run_call c (restarts io now) s =
    with_tables s (recover_approved c now (open_store io now s.tables).1).0

unfoldable pub run_calls : Codec → List Call → Service → Service
unfolding run_call
run_calls c [] s = s
run_calls c (call ∷ calls) s = run_calls c calls (run_call c call s)
