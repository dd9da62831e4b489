-- ===== src/Daemon/Execute/Once.antt =====
-- A request is executed at most once, and with a fixed environment.
use shudo.Prelude.{
  ℕ, ◌+◌, ◌≡◌, Bool, false, not, ◌||◌, Option, none, some, List, [], ◌∷◌, Bytes, arith, Bool-cases,
  Option-cases, inl, inr, ok, err,
}
use shudo.Model.{approved}
use shudo.State.Tables.{Tables}
use shudo.State.Requests.{Outcome}
use shudo.State.Approvals.{begin_execution}
use shudo.State.Approvals.Inversion.{begin_execution-ok}
use shudo.State.History.{StoreOp, appends, finishes, apply_op, run_ops}
use shudo.State.History.Decisions.{apply_op-Decided}
use shudo.State.History.Once.{
  IsUsed, Decided-IsUsed, run_ops-IsUsed, Begun-IsUsed, is_approved-approved,
}
use shudo.Daemon.Execute.{
  RunEnv, Piece, Command, drain, finish, run_process, after_begin, start_prepared, execute_item,
  execute_loaded, execute,
}
use shudo.Daemon.Execute.Gate.{Cleared, execute-Cleared}

drain-IsUsed :
    (e : RunEnv) (id : Bytes) (sequence : ℕ) (pieces : List Piece) (t : Tables)
    → IsUsed id t.approvals
    → IsUsed id (drain e id sequence pieces t).approvals
unfolding drain apply_op
drain-IsUsed e id sequence [] t h = h
drain-IsUsed e id sequence (p ∷ pieces) t h = drain-IsUsed e id (sequence + 1) pieces _ (
    Decided-IsUsed id
      (apply_op-Decided e.codec (appends p.io id sequence p.stream p.bytes e.persisted_bytes) t) h)

finish-IsUsed :
    (e : RunEnv) (id : Bytes) (code : Option ℕ) (signal : Bytes) (t : Tables)
    → IsUsed id t.approvals
    → IsUsed id (finish e id code signal t).approvals
unfolding finish apply_op
finish-IsUsed e id code signal t h =
    Decided-IsUsed id (apply_op-Decided e.codec (finishes e.end_io id code signal e.now_text) t) h

run_process-IsUsed :
    (e : RunEnv) (id : Bytes) (command : Command) (t : Tables)
    → IsUsed id t.approvals
    → IsUsed id (run_process e id command t).tables.approvals
unfolding run_process
run_process-IsUsed e id command t h =
    elim (Bool-cases (not e.process.pipes_open || not e.process.starts)) [
      | inl fails ↦ rw fails (finish-IsUsed e id (some 127) [] t h)
      | inr runs ↦ rw runs (finish-IsUsed e id _ _ _ (drain-IsUsed e id 0 e.process.pieces t h))
    ]

after_begin-IsUsed :
    (e : RunEnv) (id : Bytes) (command : Command) (o : Outcome)
    → o.0 ≡ ok tt
    → IsUsed id o.1.approvals
    → IsUsed id (after_begin e id command o).tables.approvals
unfolding after_begin
after_begin-IsUsed e id command (err x, t) done h = cc
after_begin-IsUsed e id command (ok u, t) done h = run_process-IsUsed e id command t h

-- Where every check passes, the run is what follows `BeginExecution`.
Cleared-run :
    (e : RunEnv) (id : Bytes) (t : Tables) (command : Command)
    → Cleared e id t command
    → execute e false id t
      ≡ after_begin e id command (begin_execution e.codec e.io id (some approved) e.now_text t)
unfolding execute execute_loaded execute_item start_prepared
Cleared-run e id t command c =
    rw (c.loaded, c.in_time, c.unchanged, c.decided, c.allowed, c.verified)

execute-IsUsed :
    (e : RunEnv) (loaded : Bool) (id : Bytes) (t : Tables) (command : Command)
    → (execute e loaded id t).spawned ≡ some command
    → IsUsed id (execute e loaded id t).tables.approvals
execute-IsUsed e loaded id t command h =
    let (free, c) = execute-Cleared e loaded id t command h in
    rw (free, Cleared-run e id t command c)
      (after_begin-IsUsed e id command _ c.started (
        Begun-IsUsed t _
          (begin_execution-ok e.codec e.io id (some approved) e.now_text t c.started)))

-- After a run of `execute` has started a command for a request, no later run starts one for it,
-- whatever the daemon finds outside and whatever operations of the store come in between.
pub execute-once :
    (e e' : RunEnv) (loaded loaded' : Bool) (id : Bytes) (ops : List StoreOp) (t : Tables)
    (command : Command)
    → (execute e loaded id t).spawned ≡ some command
    → (execute e' loaded' id (run_ops e.codec ops (execute e loaded id t).tables)).spawned ≡ none
execute-once e e' loaded loaded' id ops t command h =
    let after = run_ops e.codec ops (execute e loaded id t).tables in
    elim (Option-cases (execute e' loaded' id after).spawned) [
      | inl none' ↦ none'
      | inr (command', again) ↦
          let used =
            run_ops-IsUsed e.codec id ops (execute e loaded id t).tables
              (execute-IsUsed e loaded id t command h) in
          let (free, c) = execute-Cleared e' loaded' id after command' again in
          let b =
            begin_execution-ok e'.codec e'.io id (some approved) e'.now_text after c.started in
          absurd (omega (arith, used.none_left, b.approved_once is_approved-approved))
    ]
