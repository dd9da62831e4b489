-- ===== src/Daemon/Credentials.antt =====
-- internal/localcreds/credentials_linux.go: who the kernel says is at the other end of the socket.
use shudo.Prelude.{
  ℕ, ◌≡◌, refl, ◌↔◌, Bool, true, not, Option, none, some, [], Bytes, if◌then◌else◌, arith,
}
use shudo.Strings.{to_decimal}
use shudo.Daemon.Authority.{AuthInfo, credentials, requester, root_requester}

-- `unix.Ucred`
pub record Ucred : Type 0 where
  pub uid : ℕ
  pub gid : ℕ
  pub pid : ℕ

-- The connection: whether it is a Unix socket, whether its descriptor can be had and used, and what
-- `SO_PEERCRED` says of it.
pub record Connection : Type 0 where
  pub unix_socket : Bool
  pub has_descriptor : Bool
  pub controlled : Bool
  pub peer : Option Ucred

-- `user.LookupId` and `user.LookupGroupId`, by the decimal text of the number.
pub record Accounts : Type 0 where
  pub user_name : Bytes → Option Bytes
  pub group_name : Bytes → Option Bytes

abbrev found_name : Option Bytes → Bytes
found_name none = []
found_name (some name) = name

-- A name that is not found stays empty.
unfoldable pub auth_info : Accounts → Ucred → AuthInfo
unfolding to_decimal
auth_info accounts peer = record {
  uid = peer.uid;
  gid = peer.gid;
  pid = peer.pid;
  username = found_name (accounts.user_name (to_decimal peer.uid));
  group_name = found_name (accounts.group_name (to_decimal peer.gid));
}

-- `none` is an error.
unfoldable pub server_handshake : Accounts → Connection → Option AuthInfo
unfolding auth_info
server_handshake accounts c =
    if not c.unix_socket
    then none
    else if not c.has_descriptor
    then none
    else if not c.controlled
    then none
    else elim c.peer [ none ↦ none | some peer ↦ some (auth_info accounts peer) ]

unfoldable pub client_handshake : Connection → Option AuthInfo
client_handshake c = none

pub record Handshaken (accounts : Accounts) (c : Connection) (auth : AuthInfo) : Type 0 where
  pub kernel : Ucred
  pub said : c.peer ≡ some kernel
  pub same : auth ≡ auth_info accounts kernel
  pub over_unix : c.unix_socket ≡ true

server_handshake-Handshaken :
    (accounts : Accounts) (c : Connection) (auth : AuthInfo)
    → server_handshake accounts c ≡ some auth
    → Handshaken accounts c auth
unfolding server_handshake
server_handshake-Handshaken accounts c auth h = go c.peer refl
  where
    go : (p : Option Ucred) → c.peer ≡ p → Handshaken accounts c auth
    go none e = absurd (ground arith)
    go (some kernel) e = record {
      kernel = kernel;
      said = e;
      same = ground arith;
      over_unix = ground arith;
    }

-- Whoever passes the handshake has the identity that the kernel gives of the other end of the Unix
-- socket, whatever names are found for it, and passes for root exactly if the kernel says user 0.
pub server_handshake-root :
    (accounts : Accounts) (c : Connection) (auth : AuthInfo)
    → server_handshake accounts c ≡ some auth
    → (peer : Ucred) × (c.peer ≡ some peer)
      × (auth.uid ≡ peer.uid)
      × ((root_requester (credentials auth) ≡ requester (credentials auth)) ↔ (peer.uid ≡ 0))
unfolding root_requester requester auth_info
server_handshake-root accounts c auth h =
    let found = server_handshake-Handshaken accounts c auth h in
    let e = found.same in (found.kernel, found.said, ground arith, ground arith)
