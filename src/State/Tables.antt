-- ===== src/State/Tables.antt =====
-- The tables of internal/state/state.go, its errors and its results.
use shudo.Prelude.{ℕ, Bool, Option, List, Bytes, str_eq}
use shudo.State.Sql.{select_first}
use shudo.Model.{Status, ExecutionRequest, Approval}

-- What the store takes from encoding/json, from SQLite's `json_extract` and `julianday`, and from
-- the package time: `none` is an error, or NULL.
pub record Codec : Type 0 where
  pub marshal_request : ExecutionRequest → Option Bytes
  pub unmarshal_request : Bytes → Option ExecutionRequest
  pub marshal_approval : Approval → Option Bytes
  pub unmarshal_approval : Bytes → Option Approval
  pub json_uid : Bytes → Option ℕ
  pub julianday : Bytes → Option ℕ
  pub parse_time : Bytes → Option ℕ

pub record RequestRow : Type 0 where
  pub request_id : Bytes
  pub request_hash : Bytes
  pub request_json : Bytes
  pub status : Status
  pub created_at : Bytes
  pub expires_at : Bytes
  pub output_bytes : ℕ
  pub output_truncated : Bool

pub record ApprovalRow : Type 0 where
  pub approval_id : Bytes
  pub request_id : Bytes
  pub approval_json : Bytes
  pub received_at : Bytes
  pub consumed_at : Option Bytes

pub record ExecutionRow : Type 0 where
  pub request_id : Bytes
  pub started_at : Bytes
  pub finished_at : Option Bytes
  pub exit_code : Option ℕ
  pub signal : Option Bytes

pub record ChunkRow : Type 0 where
  pub request_id : Bytes
  pub sequence : ℕ
  pub stream : Bytes
  pub bytes : Bytes

pub record StateRow : Type 0 where
  pub key : Bytes
  pub value : Bytes

pub record EventRow : Type 0 where
  pub kind : Bytes
  pub request_id : Option Bytes
  pub input_hash : Option Bytes
  pub detail : Bytes
  pub occurred_at : Bytes

-- The last three fields say whether the tables and the column of older versions are there.
pub record Tables : Type 0 where
  pub requests : List RequestRow
  pub approvals : List ApprovalRow
  pub executions : List ExecutionRow
  pub output_chunks : List ChunkRow
  pub server_state : List StateRow
  pub security_events : List EventRow
  pub outbound_events : Bool
  pub used_nonces : Bool
  pub host_id_column : Bool

pub record StoredRequest : Type 0 where
  pub request : ExecutionRequest
  pub request_hash : Bytes
  pub status : Status
  pub output_bytes : ℕ
  pub output_truncated : Bool

pub record OutputChunk : Type 0 where
  pub sequence : ℕ
  pub stream : Bytes
  pub bytes : Bytes

pub record ExecutionResult : Type 0 where
  pub exit_code : Option ℕ
  pub signal : Bytes
  pub started_at : Bytes
  pub finished_at : Bytes

pub data StoreError : Type 0 where
  storage_limit unknown_request concurrent_transition invalid_approval : StoreError
  not_consumed_once invalid_query invalid_retention bad_json : StoreError
  unexpected_status invalid_transition : Status → Status → StoreError
  -- SQLite's own refusals: a key that is there, a reference that is missing or still held
  unique_violation foreign_key_violation : StoreError
  -- a statement that failed for another reason, such as a disk that is full
  statement_failed : StoreError
  -- `BeginTx` and `Commit` failed, the context being done among the reasons
  begin_failed commit_failed : StoreError

-- The WHERE clauses by request.
abbrev pub of_request : Bytes → RequestRow → Bool
of_request id r = str_eq r.request_id id

abbrev pub approval_of : Bytes → ApprovalRow → Bool
approval_of id a = str_eq a.request_id id

abbrev pub execution_of : Bytes → ExecutionRow → Bool
execution_of id e = str_eq e.request_id id

abbrev pub chunk_of : Bytes → ChunkRow → Bool
chunk_of id c = str_eq c.request_id id

-- The row of a request, by its primary key.
abbrev pub row_of : Bytes → Tables → Option RequestRow
row_of id t = select_first (of_request id) t.requests
