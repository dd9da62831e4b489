-- ===== src/State/Life.antt =====
-- What the store promises of one request, without its tables: whether it is there, its content, its
-- status, and its one ballot, which is blank, then cast, then spent. The operations of
-- internal/state/state.go as internal/daemon/service.go calls them are steps of this machine.
pub mod Views
pub mod Ballots
pub mod Gates
pub mod Refines
pub mod Lawful
pub mod Serviced
use shudo.Prelude.{
  ◌≡◌, ◌⊎◌, Bool, true, false, Option, none, some, List, [], ◌∷◌, Bytes, if◌then◌else◌, ◌==◌,
}
use mathlib.Core.Option
use shudo.Model.{Status, created, waiting, approved, denied, executing, status_in}
use shudo.State.Sql.{exists_where, count_where}
use shudo.State.Tables.{RequestRow, ApprovalRow, Tables, approval_of, row_of}
use shudo.State.Requests.{can_move}
use shudo.State.Approvals.{is_unconsumed, is_approved}
use shudo.State.History.{StoreOp, moves, starts}

-- The hash and the content never change.
pub record Brief : Type 0 where
  pub hash : Bytes
  pub content : Bytes
  pub status : Status

pub data Ballot : Type 0 where
  blank cast spent : Ballot

pub record View : Type 0 where
  pub request : Option Brief
  pub ballot : Ballot

-- The statuses that only a decision or a start on it can give.
unfoldable pub is_gated : Status → Bool
unfolding status_in
is_gated s = status_in s (approved ∷ denied ∷ executing ∷ [])

-- The steps of the machine, from `v` to `w`.
pub data Step (v w : View) : Type 0 where
  idle : w ≡ v → Step v w
  submitted :
      (b : Brief)
      → v.request ≡ none
      → b.status ≡ created
      → w ≡ record v { request = some b }
      → Step v w
  moved :
      (b : Brief) (next : Status)
      → v.request ≡ some b
      → can_move b.status next ≡ true
      → is_gated next ≡ false
      → w ≡ record v { request = some (record b { status = next }) }
      → Step v w
  decided :
      (b : Brief) (next : Status)
      → v ≡ record { request = some b; ballot = blank }
      → b.status ≡ waiting
      → (next ≡ approved) ⊎ (next ≡ denied)
      → w ≡ record { request = some (record b { status = next }); ballot = cast }
      → Step v w
  begun :
      (b : Brief)
      → v ≡ record { request = some b; ballot = cast }
      → b.status ≡ approved
      → w ≡ record { request = some (record b { status = executing }); ballot = spent }
      → Step v w
  removed : v.ballot ≡ blank → w ≡ record v { request = none } → Step v w

pub data Steps : View → View → Type 0 where
  here : {v : View} → Steps v v
  after : {v w u : View} → Step v w → Steps w u → Steps v u

-- The view of a request in the tables.
abbrev pub brief : RequestRow → Brief
brief r = record { hash = r.request_hash; content = r.request_json; status = r.status }

unfoldable pub ballot_of : Bytes → List ApprovalRow → Ballot
unfolding exists_where count_where is_unconsumed
ballot_of id approvals =
    if exists_where (approval_of id) approvals
    then (if count_where (is_unconsumed id) approvals == 0 then spent else cast)
    else blank

unfoldable pub view : Bytes → Tables → View
unfolding ballot_of
view id t = record { request = Option.map brief (row_of id t); ballot = ballot_of id t.approvals }

-- The operations as the service calls them: `Transition` never moves to a gated status, and
-- `BeginExecution` expects the status Approved.
abbrev pub IsServiceOp : StoreOp → Type 0
IsServiceOp (moves io id next expected) = is_gated next ≡ false
IsServiceOp (starts io id expected now) = is_approved expected ≡ true
IsServiceOp _ = Unit {0}
