-- ===== src/Daemon/Calls/Lawful.antt =====
-- Whatever happens to the daemon, each request goes the way of the machine.
use shudo.Prelude.{◌≡◌, List, [], ◌∷◌, Bytes}
use shudo.State.Tables.{Codec, Tables}
use shudo.State.Requests.{TxIo}
use shudo.State.Startup.{open_store}
use shudo.State.History.{recovers, migrates, apply_op}
use shudo.State.Life.{Steps, view}
use shudo.State.Life.Lawful.{IsLawful, Steps-IsLawful, empty-IsLawful}
use shudo.State.Life.Serviced.{
  Serviced, done, Serviced-trans, Serviced-Steps, one_op, expired-Serviced,
}
use shudo.Daemon.Submission.{recover_approved}
use shudo.Daemon.Submit.{Service}
use shudo.Daemon.Submit.Serviced.{submit-Serviced}
use shudo.Daemon.Decide.Serviced.{decide-Serviced, cancel-Serviced}
use shudo.Daemon.Execute.Serviced.{execute-Serviced}
use shudo.Daemon.Records.Serviced.{run_tick-Serviced, list_requests-Serviced}
use shudo.Daemon.Calls.{
  Call, submits, decides, cancels, lists, executes, ticks, restarts, run_call, run_calls,
}

restarted-Serviced :
    (c : Codec) (io : TxIo) (now : Bytes) (t : Tables)
    → Serviced c t (recover_approved c now (open_store io now t).1).0
unfolding recover_approved open_store apply_op
restarted-Serviced c io now t =
    Serviced-trans (one_op (recovers now) tt)
      (Serviced-trans (one_op (migrates io now) tt) (expired-Serviced c now _))

run_call-Serviced :
    (c : Codec) (call : Call) (s : Service) → Serviced c s.tables (run_call c call s).tables
unfolding run_call
run_call-Serviced c (submits e peer input) s = submit-Serviced (record e { codec = c }) peer input s
run_call-Serviced c (decides e peer input decision) s =
    decide-Serviced (record e { codec = c }) peer input decision s.tables
run_call-Serviced c (cancels e peer id) s =
    cancel-Serviced (record e { codec = c }) peer id s.tables
run_call-Serviced c (lists quote now peer history) s =
    list_requests-Serviced quote c now s.tables peer history
run_call-Serviced c (executes e loaded id) s =
    execute-Serviced (record e { codec = c }) id loaded s.tables
run_call-Serviced c (ticks config tick) s = run_tick-Serviced c config tick s.tables
run_call-Serviced c (restarts io now) s = restarted-Serviced c io now s.tables

run_calls-Serviced :
    (c : Codec) (calls : List Call) (s : Service) → Serviced c s.tables (run_calls c calls s).tables
unfolding run_calls
run_calls-Serviced c [] s = done
run_calls-Serviced c (call ∷ calls) s =
    Serviced-trans (run_call-Serviced c call s) (run_calls-Serviced c calls (run_call c call s))

-- The daemon refines the machine of one request. Over any sequence of submissions, decisions,
-- cancellations, listings, executions, ticks and restarts, by any callers and whatever each finds
-- outside, each request takes only steps of the machine: it is submitted, moved along an edge to a
-- status that is not gated, decided while it waits and its ballot is blank, begun while it is
-- approved and its ballot is cast, or removed while its ballot is blank.
pub run_calls-Steps :
    (c : Codec) (calls : List Call) (s : Service) (id : Bytes)
    → Steps (view id s.tables) (view id (run_calls c calls s).tables)
run_calls-Steps c calls s id = Serviced-Steps c id (run_calls-Serviced c calls s)

-- From tables without requests and decisions, after any such sequence: a request that is executing
-- or has been executed has its one decision used; one that is approved or denied has a decision
-- that is not used; one that waits, or is not there, has none.
pub run_calls-IsLawful :
    (c : Codec) (calls : List Call) (s : Service) (id : Bytes)
    → s.tables.requests ≡ []
    → s.tables.approvals ≡ []
    → IsLawful (view id (run_calls c calls s).tables)
run_calls-IsLawful c calls s id r a =
    Steps-IsLawful (run_calls-Steps c calls s id) (empty-IsLawful id s.tables r a)
