-- ===== src/Daemon/Execute/Serviced.antt =====
-- `execute` changes the tables only by operations of the store that the machine of one request
-- allows, from the checks to the output and the end of the command.
use shudo.Prelude.{
  ℕ, ◌+◌, refl, Bool, not, ◌||◌, Option, none, some, List, [], ◌∷◌, Bytes, Result, ok, err,
}
use shudo.Model.{status_eq, approved, expired, policy_rejected}
use shudo.Integrity.{IntegrityError}
use shudo.Policy
use shudo.State.Tables.{Tables, StoredRequest, StoreError}
use shudo.State.Requests.{Outcome, get_from}
use shudo.State.Approvals.{approval_for, begin_execution}
use shudo.State.History.{finishes, appends, starts, apply_op}
use shudo.State.Life.{is_gated}
use shudo.State.Life.Serviced.{
  Serviced, done, Serviced-trans, one_op, branch, moved-Serviced, recorded-Serviced,
}
use shudo.State.Approvals.{is_approved}
use shudo.Daemon.Decide.{hash_matches}
use shudo.Daemon.Execute.{
  RunEnv, Run, Command, Piece, reject, reject_event, is_future, approval_bound, policy_allows,
  prepare, drain, finish, run_process, after_begin, start_prepared, execute_item, execute_loaded,
  execute, exit_code, end_signal,
}

module _ (e : RunEnv) (id : Bytes) where
  reject-Serviced : (t : Tables) → Serviced e.codec t (reject e id t)
  unfolding reject is_gated
  reject-Serviced t = moved-Serviced e.codec e.io id policy_rejected (some approved) t refl

  reject_event-Serviced :
      (item : StoredRequest) (kind detail : Bytes) (t : Tables)
      → Serviced e.codec t (reject_event e id item kind detail t)
  unfolding reject_event
  reject_event-Serviced item kind detail t =
      Serviced-trans (reject-Serviced t) (recorded-Serviced e.codec kind id _ detail e.now_text _)

  drain-Serviced :
      (sequence : ℕ) (pieces : List Piece) (t : Tables)
      → Serviced e.codec t (drain e id sequence pieces t)
  unfolding drain apply_op
  drain-Serviced sequence [] t = done
  drain-Serviced sequence (p ∷ pieces) t =
      Serviced-trans (one_op (appends p.io id sequence p.stream p.bytes e.persisted_bytes) tt)
        (drain-Serviced (sequence + 1) pieces _)

  finish-Serviced :
      (code : Option ℕ) (signal : Bytes) (t : Tables)
      → Serviced e.codec t (finish e id code signal t)
  unfolding finish apply_op
  finish-Serviced code signal t = one_op (finishes e.end_io id code signal e.now_text) tt

  run_process-Serviced :
      (command : Command) (t : Tables) → Serviced e.codec t (run_process e id command t).tables
  unfolding run_process
  run_process-Serviced command t =
      branch (λ (r : Run). r.tables) e.codec t (not e.process.pipes_open || not e.process.starts) _
        _ (finish-Serviced (some 127) [] t)
        (Serviced-trans (drain-Serviced 0 e.process.pieces t) (
          finish-Serviced (exit_code e.process) (end_signal e.process)
            (drain e id 0 e.process.pieces t)))

  after_begin-Serviced :
      (command : Command) (o : Outcome) → Serviced e.codec o.1 (after_begin e id command o).tables
  unfolding after_begin
  after_begin-Serviced command (err x, t) = done
  after_begin-Serviced command (ok u, t) = run_process-Serviced command t

  start_prepared-Serviced :
      (r : Result IntegrityError Command) (t : Tables)
      → Serviced e.codec t (start_prepared e id r t).tables
  unfolding start_prepared apply_op is_approved status_eq
  start_prepared-Serviced (err x) t = reject-Serviced t
  start_prepared-Serviced (ok command) t =
      Serviced-trans (one_op (starts e.io id (some approved) e.now_text) refl) (
        after_begin-Serviced command (begin_execution e.codec e.io id (some approved) e.now_text t))

  execute_item-Serviced :
      (item : StoredRequest) (t : Tables) → Serviced e.codec t (execute_item e id item t).tables
  unfolding execute_item is_gated
  execute_item-Serviced item t =
      let b = branch (λ (r : Run). r.tables) e.codec t in
      b (not (is_future (e.codec.parse_time item.request.expires_at) e.now)) _ _
        (moved-Serviced e.codec e.io id expired (some approved) t refl)
        (b (not (hash_matches e.hash item)) _ _ (reject_event-Serviced item _ _ t) (
          b (not (approval_bound item (approval_for e.codec t id))) _ _
            (reject_event-Serviced item _ _ t)
            (b (not (policy_allows e item (Policy.load e.policy_file))) _ _ (reject-Serviced t)
              (start_prepared-Serviced (prepare e item.request) t))))

  execute_loaded-Serviced :
      (r : Result StoreError (Option StoredRequest)) (t : Tables)
      → Serviced e.codec t (execute_loaded e id r t).tables
  unfolding execute_loaded
  execute_loaded-Serviced (err x) t = done
  execute_loaded-Serviced (ok none) t = done
  execute_loaded-Serviced (ok (some item)) t = execute_item-Serviced item t

  pub execute-Serviced :
      (loaded : Bool) (t : Tables) → Serviced e.codec t (execute e loaded id t).tables
  unfolding execute
  execute-Serviced loaded t =
      branch (λ (r : Run). r.tables) e.codec t loaded _ _ done
        (execute_loaded-Serviced (get_from e.codec t id) t)
