-- ===== src/Daemon/Authority.antt =====
-- Who calls: `requester`, `rootRequester` and the errors of the RPCs; and `cryptoutil.Equal`.
use shudo.Prelude.{
  ℕ, Bool, false, not, Option, none, some, [], ◌∷◌, Bytes, length, if◌then◌else◌, ◌==◌, str_eq,
  is_empty, Result, ok, err, ◌>>=◌,
}
use shudo.Model.{Requester, Approval}
use shudo.State.Tables.{StoreError}

-- The kernel's credentials of the peer (internal/localcreds).
pub record AuthInfo : Type 0 where
  pub uid : ℕ
  pub gid : ℕ
  pub pid : ℕ
  pub username : Bytes
  pub group_name : Bytes

-- What the context says of the peer: nothing, credentials of another kind, or those of the kernel.
pub data Peer : Type 0 where
  missing other_auth : Peer
  credentials : AuthInfo → Peer

pub data RpcError : Type 0 where
  unauthenticated permission_denied invalid_argument not_found failed_precondition : RpcError
  data_loss aborted canceled resource_exhausted internal : RpcError
  store_failed : StoreError → RpcError
  -- not an answer: the handler reads through a nil pointer
  panicked : RpcError

-- An empty name is left out.
unfoldable pub name_or_none : Bytes → Option Bytes
name_or_none [] = none
name_or_none (a ∷ s) = some (a ∷ s)

unfoldable pub requester : Peer → Result RpcError Requester
unfolding name_or_none
requester missing = err unauthenticated
requester other_auth = err unauthenticated
requester (credentials auth) = ok (record {
  uid = auth.uid;
  gid = auth.gid;
  pid = some auth.pid;
  username = name_or_none auth.username;
  group_name = name_or_none auth.group_name;
})

unfoldable pub root_requester : Peer → Result RpcError Requester
unfolding requester
root_requester peer = do
  actor ← requester peer
  if not (actor.uid == 0) then err permission_denied else ok actor

-- `Equal` of internal/cryptoutil/crypto.go: the lengths first, then every byte.
unfoldable pub equal : Bytes → Bytes → Bool
equal left right = if not (length left == length right) then false else str_eq left right

unfoldable pub approval_actor : Approval → Bytes
approval_actor a = elim a.approved_by.display_name [
  | none ↦ a.approved_by.subject
  | some name ↦ if is_empty name then a.approved_by.subject else name
]
