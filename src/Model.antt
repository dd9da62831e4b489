-- ===== src/Model.antt =====
-- internal/model/model.go: the statuses of a request and the records that the daemon stores.
use shudo.Prelude.{
  ℕ, zero, suc, ◌≡◌, refl, ap, ◌∙◌, sym, ◌↔◌, Bool, true, false, Option, List, Bytes, codes, ◌==◌,
  ==_iff, any,
}

pub data Status : Type 0 where
  created policy_rejected queued synced waiting approved denied expired : Status
  executing succeeded failed cancelled : Status

-- The source compares the status constants as texts; the constants are distinct.
abbrev rank : Status → ℕ
rank created = 0
rank policy_rejected = 1
rank queued = 2
rank synced = 3
rank waiting = 4
rank approved = 5
rank denied = 6
rank expired = 7
rank executing = 8
rank succeeded = 9
rank failed = 10
rank cancelled = 11

unfoldable pub status_eq : Status → Status → Bool
status_eq a b = rank a == rank b

-- The constants of the source.
unfoldable pub status_text : Status → Bytes
status_text created = codes "CREATED"
status_text policy_rejected = codes "POLICY_REJECTED"
status_text queued = codes "QUEUED"
status_text synced = codes "SYNCED"
status_text waiting = codes "WAITING_APPROVAL"
status_text approved = codes "APPROVED"
status_text denied = codes "DENIED"
status_text expired = codes "EXPIRED"
status_text executing = codes "EXECUTING"
status_text succeeded = codes "SUCCEEDED"
status_text failed = codes "FAILED"
status_text cancelled = codes "CANCELLED"

of_rank : ℕ → Status
of_rank zero = created
of_rank (suc zero) = policy_rejected
of_rank (suc (suc zero)) = queued
of_rank (suc (suc (suc zero))) = synced
of_rank (suc (suc (suc (suc zero)))) = waiting
of_rank (suc (suc (suc (suc (suc zero))))) = approved
of_rank (suc (suc (suc (suc (suc (suc zero)))))) = denied
of_rank (suc (suc (suc (suc (suc (suc (suc zero))))))) = expired
of_rank (suc (suc (suc (suc (suc (suc (suc (suc zero)))))))) = executing
of_rank (suc (suc (suc (suc (suc (suc (suc (suc (suc zero))))))))) = succeeded
of_rank (suc (suc (suc (suc (suc (suc (suc (suc (suc (suc zero)))))))))) = failed
of_rank _ = cancelled

of_rank-rank : (s : Status) → of_rank (rank s) ≡ s
unfolding of_rank
of_rank-rank created = refl
of_rank-rank _ = refl

pub status_eq_iff : (a b : Status) → (status_eq a b ≡ true) ↔ (a ≡ b)
unfolding status_eq
status_eq_iff a b = (
  λ h. sym (of_rank-rank a) ∙ ap of_rank ((==_iff (rank a) (rank b)).0 h) ∙ of_rank-rank b,
  λ e. (==_iff (rank a) (rank b)).1 (ap rank e),
)

-- `status IN (...)`
unfoldable pub status_in : Status → List Status → Bool
unfolding status_eq any
status_in s = any (status_eq s)

-- A switch over the status constants that end a request.
unfoldable pub is_terminal : Status → Bool
is_terminal policy_rejected = true
is_terminal denied = true
is_terminal expired = true
is_terminal succeeded = true
is_terminal failed = true
is_terminal cancelled = true
is_terminal _ = false

-- `uint32` and `int32` fields are plain numbers: they are stored and compared, never computed with.
pub record Requester : Type 0 where
  pub uid : ℕ
  pub gid : ℕ
  pub pid : Option ℕ
  pub username : Option Bytes
  pub group_name : Option Bytes

pub record Execution : Type 0 where
  pub executable : Bytes
  pub argv : List Bytes
  pub cwd : Bytes
  pub env : List (Bytes × Bytes)

pub record FileMetadata : Type 0 where
  pub path : Bytes
  pub device : Option ℕ
  pub inode : Option ℕ
  pub size : Option ℕ
  pub owner_uid : Option ℕ
  pub mode : Option ℕ
  pub mtime_ns : Option Bytes
  pub ctime_ns : Option Bytes
  pub sha256 : Bytes

pub record WorkingDirectoryMetadata : Type 0 where
  pub path : Bytes
  pub device : ℕ
  pub inode : ℕ
  pub owner_uid : ℕ
  pub mode : ℕ
  pub mtime_ns : Bytes
  pub ctime_ns : Bytes

pub record RiskMetadata : Type 0 where
  pub shell : Bool
  pub interpreter : Bool
  pub script : Bool
  pub environment_overrides : Bool
  pub warnings : List Bytes

pub record ExecutionRequest : Type 0 where
  pub version : ℕ
  pub request_id : Bytes
  pub requester : Requester
  pub execution : Execution
  pub executable_metadata : FileMetadata
  pub interpreter_metadata : Option FileMetadata
  pub interpreter_argument : Option Bytes
  pub working_directory_metadata : WorkingDirectoryMetadata
  pub risk : RiskMetadata
  pub policy_result : Bytes
  pub reason : Bytes
  pub created_at : Bytes
  pub expires_at : Bytes
  pub nonce : Bytes

pub record ApprovedBy : Type 0 where
  pub subject : Bytes
  pub display_name : Option Bytes

pub record Approval : Type 0 where
  pub version : ℕ
  pub approval_id : Bytes
  pub request_id : Bytes
  pub request_hash : Bytes
  pub decision : Bytes
  pub approved_by : ApprovedBy
  pub approved_at : Bytes
  pub reason : Bytes
