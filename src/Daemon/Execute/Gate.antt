-- ===== src/Daemon/Execute/Gate.antt =====
-- What must hold for a command to be started.
use shudo.Prelude.{
  ◌≡◌, refl, ap, Bool, true, false, Option, none, some, Bytes, arith, Result, ok, err,
}
use shudo.Model.{approved}
use shudo.Integrity.{IntegrityError}
use shudo.Policy
use shudo.State.Tables.{Tables, StoredRequest, StoreError}
use shudo.State.Requests.{Outcome, get_from}
use shudo.State.Approvals.{approval_for, begin_execution}
use shudo.Daemon.Decide.{hash_matches}
use shudo.Daemon.Execute.{
  RunEnv, Command, is_future, approval_bound, policy_allows, prepare, after_begin, run_process,
  start_prepared, execute_item, execute_loaded, execute,
}

-- Everything that held when the command was started.
pub record Cleared (e : RunEnv) (id : Bytes) (t : Tables) (command : Command) : Type 0 where
  pub item : StoredRequest
  pub loaded : get_from e.codec t id ≡ ok (some item)
  pub in_time : is_future (e.codec.parse_time item.request.expires_at) e.now ≡ true
  pub unchanged : hash_matches e.hash item ≡ true
  pub decided : approval_bound item (approval_for e.codec t id) ≡ true
  pub allowed : policy_allows e item (Policy.load e.policy_file) ≡ true
  pub verified : prepare e item.request ≡ ok command
  pub started : (begin_execution e.codec e.io id (some approved) e.now_text t).0 ≡ ok tt
  pub process_started : e.process.starts ≡ true

after_begin-ok :
    (e : RunEnv) (id : Bytes) (command command' : Command) (o : Outcome)
    → (after_begin e id command o).spawned ≡ some command'
    → (command ≡ command') × (o.0 ≡ ok tt) × (e.process.starts ≡ true)
unfolding after_begin run_process
after_begin-ok e id command command' (err x, t) h = cc
after_begin-ok e id command command' (ok u, t) h = (ground arith, ground arith, ground arith)

start_prepared-ok :
    (e : RunEnv) (id : Bytes) (p : Result IntegrityError Command) (t : Tables) (command : Command)
    → (start_prepared e id p t).spawned ≡ some command
    → (p ≡ ok command)
      × ((begin_execution e.codec e.io id (some approved) e.now_text t).0 ≡ ok tt)
      × (e.process.starts ≡ true)
unfolding start_prepared
start_prepared-ok e id (err x) t command h = cc
start_prepared-ok e id (ok command') t command h =
    let (same, begun, starts) = after_begin-ok e id command' command _ h in
    (ap (λ (x : Command). ok x) same, begun, starts)

execute_item-Cleared :
    (e : RunEnv) (id : Bytes) (item : StoredRequest) (t : Tables) (command : Command)
    → get_from e.codec t id ≡ ok (some item)
    → (execute_item e id item t).spawned ≡ some command
    → Cleared e id t command
unfolding execute_item
execute_item-Cleared e id item t command g h = record {
  item = item;
  loaded = g;
  in_time = ground arith;
  unchanged = ground arith;
  decided = ground arith;
  allowed = ground arith;
  verified = go.0;
  started = go.1;
  process_started = go.2;
}
  where
    go :
        (prepare e item.request ≡ ok command)
        × ((begin_execution e.codec e.io id (some approved) e.now_text t).0 ≡ ok tt)
        × (e.process.starts ≡ true)
    go = start_prepared-ok e id (prepare e item.request) t command (ground arith)

execute_loaded-Cleared :
    (e : RunEnv) (id : Bytes) (r : Result StoreError (Option StoredRequest)) (t : Tables)
    (command : Command)
    → get_from e.codec t id ≡ r
    → (execute_loaded e id r t).spawned ≡ some command
    → Cleared e id t command
unfolding execute_loaded
execute_loaded-Cleared e id (err x) t command g h = cc
execute_loaded-Cleared e id (ok none) t command g h = cc
execute_loaded-Cleared e id (ok (some item)) t command g h =
    execute_item-Cleared e id item t command g h

-- If `execute` starts a command, then no other goroutine was executing the request, the request is
-- stored and its expiry is in the future, its hash computed again is the stored one, the stored
-- decision approves it with its identifier and its hash, the policy as loaded does not deny it and
-- it has no environment, the command is made of the descriptors that passed their checks, and
-- `BeginExecution` committed from `Approved`.
pub execute-Cleared :
    (e : RunEnv) (loaded : Bool) (id : Bytes) (t : Tables) (command : Command)
    → (execute e loaded id t).spawned ≡ some command
    → (loaded ≡ false) × Cleared e id t command
unfolding execute
execute-Cleared e true id t command h = cc
execute-Cleared e false id t command h =
    (refl, execute_loaded-Cleared e id (get_from e.codec t id) t command refl h)
