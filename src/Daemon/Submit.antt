-- ===== src/Daemon/Submit.antt =====
-- `Submit`: the caller, the checks, the limits, the files, the policy, and the stored request. The
-- handler is one run here; other calls come before and after it.
pub mod Stored
pub mod Executable
pub mod Serviced
use shudo.Prelude.{
  ℕ, Bool, not, ◌||◌, Option, none, some, Bytes, if◌then◌else◌, str_eq, Result, ok, err, ◌>>=◌, ℤ,
  pos, negsuc, true, false,
}
use shudo.Strings.{trim_space}
use shudo.Model.{
  Status, created, waiting, policy_rejected, Requester, WorkingDirectoryMetadata, ExecutionRequest,
}
use shudo.Integrity.{FileStat, Host, IntegrityError}
use shudo.Integrity.Resolve.{resolve_executable}
use shudo.Integrity.Inspect.{inspect_executable_and_interpreter, inspect_directory, risk, Inspected}
use shudo.Policy
use shudo.Policy.{PolicyError}
use shudo.Config.{Daemon, int_lt}
use shudo.State.Tables.{Codec, Tables, StoredRequest, StoreError, storage_limit}
use shudo.State.Requests.{
  Disk, TxIo, Outcome, get_from, create, store_transition, expire_outstanding,
}
use shudo.State.Listing.{outstanding_counts}
use shudo.Daemon.Authority.{
  Peer, RpcError, invalid_argument, failed_precondition, resource_exhausted, internal, store_failed,
  panicked, requester,
}
use shudo.Daemon.Limits.{LimitConfig, Limits, acquire_submission, release_submission}
use shudo.Daemon.Submission.{SubmitRequest, SubmitError, validate_submit}

-- What one call finds outside: the files, the decoded policy, the clock in nanoseconds and the text
-- of it and of the expiry, random identifiers (`none` is an error), the disk and its transaction.
pub record SubmitEnv : Type 0 where
  pub codec : Codec
  pub hash : ExecutionRequest → Option Bytes
  pub host : Host
  pub eval_symlinks : Bytes → Option Bytes
  pub stat_path : Bytes → Option FileStat
  pub policy_file : Option Policy.Config
  pub config : Daemon
  pub now : ℕ
  pub now_text : Bytes
  pub expiry_text : ℕ → Bytes
  pub uuid : Option Bytes
  pub nonce : Option Bytes
  pub disk : Disk
  pub io : TxIo

pub record SubmitResponse : Type 0 where
  pub request_id : Bytes
  pub request_hash : Bytes
  pub status : Status

-- A request that is ready to be stored, and what the policy says of it.
pub record Prepared : Type 0 where
  pub request : ExecutionRequest
  pub hash : Bytes
  pub action : Bytes

-- The store and the counters that the service guards.
pub record Service : Type 0 where
  pub tables : Tables
  pub limits : Limits

-- A limit of Go's `int` against a count: a negative one is reached at once, as 0 is.
abbrev pub limit_of : ℤ → ℕ
limit_of (pos n) = n
limit_of (negsuc n) = 0

abbrev pub limit_config : Daemon → LimitConfig
limit_config c = record {
  max_concurrent_per_uid = limit_of c.max_concurrent_per_uid;
  max_concurrent_total = limit_of c.max_concurrent_total;
  max_submissions_per_minute = limit_of c.max_submissions_per_minute;
  max_watchers_per_uid = limit_of c.max_watchers_per_uid;
  max_watchers_per_request = limit_of c.max_watchers_per_request;
}

-- `perUID >= MaxPendingPerUID || total >= MaxPendingTotal`
unfoldable pub too_many : SubmitEnv → ℕ → Tables → Bool
too_many e uid t =
    let counts = outstanding_counts e.codec uid t in
    not (int_lt (pos counts.0) e.config.max_pending_per_uid)
    || not (int_lt (pos counts.1) e.config.max_pending_total)

abbrev or_rpc {ℓ} : {E : Type 0} {A : Type ℓ} → RpcError → Result E A → Result RpcError A
or_rpc x (err e) = err x
or_rpc x (ok a) = ok a

abbrev some_or {ℓ} : {A : Type ℓ} → RpcError → Option A → Result RpcError A
some_or x none = err x
some_or x (some a) = ok a

unfoldable pub build_request :
    SubmitEnv
    → Requester
    → SubmitRequest
    → Bytes
    → Inspected
    → WorkingDirectoryMetadata
    → Bytes
    → Bytes
    → Bytes
    → ExecutionRequest
build_request e actor input executable found directory action id nonce = record {
  version = 1;
  request_id = id;
  requester = actor;
  execution = record {
    executable = executable;
    argv = input.argv;
    cwd = directory.path;
    env = input.env;
  };
  executable_metadata = found.metadata;
  interpreter_metadata = found.interpreter;
  interpreter_argument = found.argument;
  working_directory_metadata = directory;
  risk =
      risk executable input.argv (elim found.interpreter [ none ↦ false | some _ ↦ true ])
        input.env;
  policy_result = action;
  reason = trim_space input.reason;
  created_at = e.now_text;
  expires_at = e.expiry_text input.timeout_ms;
  nonce = nonce;
}

-- From the resolution of the executable to the hash.
unfoldable pub prepare_request : SubmitEnv → Requester → SubmitRequest → Result RpcError Prepared
unfolding build_request
prepare_request e actor input = do
  executable ←
      or_rpc invalid_argument
        (resolve_executable e.eval_symlinks e.stat_path input.executable input.cwd)
  found ← or_rpc invalid_argument (
      inspect_executable_and_interpreter e.host e.eval_symlinks executable
        (limit_of e.config.max_executable_bytes))
  directory ← or_rpc invalid_argument (inspect_directory e.eval_symlinks e.stat_path input.cwd)
  policy ← or_rpc failed_precondition (Policy.load e.policy_file)
  let action =
      Policy.evaluate e.eval_symlinks policy (record {
        executable = executable;
        argv = input.argv;
        cwd = directory.path;
        uid = actor.uid;
      })
  id ← some_or internal e.uuid
  nonce ← some_or internal e.nonce
  let request = build_request e actor input executable found directory action id nonce
  hash ← some_or internal (e.hash request)
  ok (record { request = request; hash = hash; action = action })

abbrev pub first_status : Bytes → Status
first_status action = if str_eq action Policy.deny then policy_rejected else waiting

abbrev answer_status :
    Prepared → Result StoreError (Option StoredRequest) → Result RpcError SubmitResponse
answer_status p (ok (some stored)) =
    ok (record { request_id = p.request.request_id; request_hash = p.hash; status = stored.status })
-- the error of `Get` is dropped, and its result is read
answer_status p _ = err panicked

submit_moved : SubmitEnv → Prepared → Outcome → Result RpcError SubmitResponse × Tables
submit_moved e p (err x, t) = (err (store_failed x), t)
submit_moved e p (ok u, t) = (answer_status p (get_from e.codec t p.request.request_id), t)

-- The error for a full store has a status of its own.
abbrev create_error : StoreError → RpcError
create_error storage_limit = resource_exhausted
create_error x = store_failed x

submit_created : SubmitEnv → Prepared → Outcome → Result RpcError SubmitResponse × Tables
unfolding submit_moved
submit_created e p (err x, t) = (err (create_error x), t)
submit_created e p (ok u, t) =
    submit_moved e p
      (store_transition e.codec e.io p.request.request_id (first_status p.action) (some created) t)

submit_prepared :
    SubmitEnv → ℕ → Result RpcError Prepared → Tables → Result RpcError SubmitResponse × Tables
unfolding submit_created
submit_prepared e uid (err x) t = (err x, t)
submit_prepared e uid (ok p) t =
    if too_many e uid t
    then (err resource_exhausted, t)
    else submit_created e p (create e.codec e.disk p.request p.hash t)

-- What happens between the admission and its release.
unfoldable pub submit_admitted :
    SubmitEnv → Requester → SubmitRequest → Tables → Result RpcError SubmitResponse × Tables
unfolding submit_prepared
submit_admitted e actor input t =
    let t' = expire_outstanding e.codec e.now_text t in
    if too_many e actor.uid t'
    then (err resource_exhausted, t')
    else submit_prepared e actor.uid (prepare_request e actor input) t'

submit_limited :
    SubmitEnv
    → Requester
    → SubmitRequest
    → Tables
    → Limits × Bool
    → Result RpcError SubmitResponse × Service
submit_limited e actor input t (l, false) =
    (err resource_exhausted, record { tables = t; limits = l })
submit_limited e actor input t (l, true) =
    let (answer, t') = submit_admitted e actor input t in
    (answer, record { tables = t'; limits = release_submission actor.uid l })

submit_valid :
    SubmitEnv
    → Requester
    → SubmitRequest
    → Service
    → Result SubmitError (Unit {0})
    → Result RpcError SubmitResponse × Service
unfolding submit_limited
submit_valid e actor input s (err x) = (err invalid_argument, s)
submit_valid e actor input s (ok u) =
    submit_limited e actor input s.tables
      (acquire_submission (limit_config e.config) e.now actor.uid s.limits)

submit_as :
    SubmitEnv
    → Result RpcError Requester
    → SubmitRequest
    → Service
    → Result RpcError SubmitResponse × Service
unfolding submit_valid
submit_as e (err x) input s = (err x, s)
submit_as e (ok actor) input s = submit_valid e actor input s (validate_submit input)

unfoldable pub submit :
    SubmitEnv → Peer → SubmitRequest → Service → Result RpcError SubmitResponse × Service
unfolding submit_as
submit e peer input s = submit_as e (requester peer) input s
