-- ===== src/Daemon/Execute/Succeeds.antt =====
-- When `execute` starts the command, and that it does so after root's approval.
use mathlib.Core.Path.{subst}
use shudo.Prelude.{
  ◌≡◌, refl, ap, ◌∙◌, sym, true, false, some, Bytes, ok, str_eq, str_eq_refl, arith, length, ==_iff,
}
use shudo.Model.{approved, Requester, ExecutionRequest}
use shudo.Policy
use shudo.Policy.{Config}
use shudo.State.Sql.{exists_where}
use shudo.State.Tables.{RequestRow, Tables, execution_of}
use shudo.State.Requests.{stored_request, expire_outstanding}
use shudo.State.Requests.Succeeds.{get_from-found}
use shudo.State.Approvals.{approve_text, approval_for}
use shudo.State.Approvals.Succeeds.{begin_execution-succeeds}
use shudo.Daemon.Authority.{Peer, root_requester, equal}
use shudo.Daemon.Decide.{CallEnv, DecisionRequest, hash_matches, decide}
use shudo.Daemon.Decide.Succeeds.{Approvable, the_decision, Approved, decide-succeeds}
use shudo.Daemon.Execute.{
  RunEnv, Command, is_future, approval_bound, policy_allows, prepare, run_process, after_begin,
  start_prepared, execute_item, execute_loaded, execute,
}

equal_refl : (s : Bytes) → equal s s ≡ true
unfolding equal
equal_refl s = rw ((==_iff (length s) (length s)).1 refl, str_eq_refl s) refl

-- What an execution finds: it is in time, the content has its hash, the policy lets it pass, its
-- files are the recorded ones, and the transaction and the process start.
pub record Runnable (e : RunEnv) (q : ExecutionRequest) (r : RequestRow) (command : Command)
    : Type 0 where
  pub in_time : is_future (e.codec.parse_time q.expires_at) e.now ≡ true
  pub hash : Bytes
  pub hashed : e.hash q ≡ some hash
  pub unchanged : equal hash r.request_hash ≡ true
  pub config : Config
  pub loaded : Policy.load e.policy_file ≡ ok config
  pub allowed : policy_allows e (stored_request r q) (ok config) ≡ true
  pub verified : prepare e q ≡ ok command
  pub begins : e.io.begins ≡ true
  pub commits : e.io.commits ≡ true
  pub pipes_open : e.process.pipes_open ≡ true
  pub starts : e.process.starts ≡ true

item_starts :
    (e : RunEnv) (id : Bytes) (q : ExecutionRequest) (r : RequestRow) (t : Tables)
    (command : Command)
    → is_future (e.codec.parse_time q.expires_at) e.now ≡ true
    → hash_matches e.hash (stored_request r q) ≡ true
    → approval_bound (stored_request r q) (approval_for e.codec t id) ≡ true
    → policy_allows e (stored_request r q) (Policy.load e.policy_file) ≡ true
    → (execute_item e id (stored_request r q) t).spawned
      ≡ (start_prepared e id (prepare e q) t).spawned
unfolding execute_item
item_starts e id q r t command in_time unchanged bound allowed = ground arith

process_starts :
    (e : RunEnv) (id : Bytes) (command : Command) (t : Tables)
    → e.process.pipes_open ≡ true
    → e.process.starts ≡ true
    → (run_process e id command t).spawned ≡ some command
unfolding run_process
process_starts e id command t p s = ground arith

module _ (e : RunEnv) (id : Bytes) (q : ExecutionRequest) (hash : Bytes) (t0 t : Tables)
    (a : Approved e.codec id q hash t0 t) where
  bound : approval_bound (stored_request a.row q) (approval_for e.codec t id) ≡ true
  unfolding approval_bound
  bound =
      let same_id : equal a.decision.request_id q.request_id ≡ true =
        rw a.about (equal_refl q.request_id) in
      let same_hash : equal a.decision.request_hash a.row.request_hash ≡ true =
        rw (a.bound, a.same_hash) (equal_refl hash) in
      let approves : str_eq a.decision.decision approve_text ≡ true =
        rw a.approves (str_eq_refl approve_text) in
      ap (approval_bound (stored_request a.row q)) a.stored ∙ rw (approves, same_id, same_hash) refl

  unchanged_hash :
      (r : RequestRow) {command : Command}
      → r.request_hash ≡ hash
      → Runnable e q r command
      → hash_matches e.hash (stored_request a.row q) ≡ true
  unfolding hash_matches
  unchanged_hash r own h =
      let same : equal h.hash a.row.request_hash ≡ true =
        subst (λ (s : Bytes). equal h.hash s ≡ true) (own ∙ sym a.same_hash) h.unchanged in
      rw (hash_matches, h.hashed) same

  row_allowed :
      (r : RequestRow) (config : Config)
      → policy_allows e (stored_request r q) (ok config) ≡ true
      → policy_allows e (stored_request a.row q) (ok config) ≡ true
  unfolding policy_allows
  row_allowed r config h = h

  pub execute-succeeds :
      (r : RequestRow) (command : Command)
      → r.request_hash ≡ hash
      → Runnable e q r command
      → exists_where (execution_of id) t.executions ≡ false
      → (execute e false id t).spawned ≡ some command
  unfolding execute execute_loaded
  execute-succeeds r command own h fresh =
      let (t', began) =
        begin_execution-succeeds e.codec e.io e.now_text q a.row t h.begins h.commits id a.is_row
          fresh a.unused in
      ap (λ found. (execute_loaded e id found t).spawned)
        (get_from-found e.codec id approved q a.row t a.is_row)
      ∙ item_starts e id q a.row t command (ap (λ x. is_future x e.now) refl ∙ h.in_time)
          (unchanged_hash r own h) bound
          (ap (policy_allows e (stored_request a.row q)) h.loaded
            ∙ row_allowed r h.config h.allowed)
      ∙ ap (λ p. (start_prepared e id p t).spawned) h.verified
      ∙ ap (λ o. (after_begin e id command o).spawned) began
      ∙ process_starts e id command t' h.pipes_open h.starts

-- Let a request wait after the expiry, and let root's message name the hash that it is stored with
-- and that its content has; let it have no decision and no execution, the new decision be valid,
-- under a new identifier and read back as it was written, and both transactions commit. Then the
-- approval starts the execution; and if by then the request is in time, the policy does not deny it
-- and its files are the recorded ones, the execution starts the command that was approved.
pub approve-execute :
    (d : CallEnv) (e : RunEnv) (peer : Peer) (input : DecisionRequest) (actor : Requester)
    (q : ExecutionRequest) (r : RequestRow) (id raw : Bytes) (t : Tables) (command : Command)
    → e.codec ≡ d.codec
    → root_requester peer ≡ ok actor
    → (h : Approvable d input actor q r id raw (expire_outstanding d.codec d.now t))
    → d.codec.unmarshal_approval raw
      ≡ some (the_decision d input actor q r id raw (expire_outstanding d.codec d.now t) h)
    → exists_where (execution_of input.request_id) t.executions ≡ false
    → Runnable e q r command
    → ((decide d peer input approve_text t).starts ≡ true)
      × ((execute e false input.request_id (decide d peer input approve_text t).tables).spawned
          ≡ some command)
unfolding expire_outstanding
approve-execute d e peer input actor q r id raw t command codec root h same fresh run =
    let (starts, approved') = decide-succeeds d peer input actor q r id raw t root h same in
    let left = (decide d peer input approve_text t).tables in
    let t' = expire_outstanding d.codec d.now t in
    (
      starts,
      execute-succeeds e input.request_id q r.request_hash t' left
          (subst (λ c. Approved c input.request_id q r.request_hash t' left) (sym codec) approved')
          r command refl run
          (ap (exists_where (execution_of input.request_id)) approved'.executions ∙ fresh),
    )
