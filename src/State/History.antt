-- ===== src/State/History.antt =====
-- The store as a state machine: every operation of internal/state/state.go that writes, and
-- histories of them. The two stages of `Open` are two steps, and so is the deletion of
-- `PruneUnapproved`, which may run on other tables than its query saw: its identifiers are any.
pub mod Fate
pub mod Steps
pub mod Decisions
pub mod Once
pub mod Final
use shudo.Prelude.{ℕ, Option, List, [], ◌∷◌, Bytes}
use shudo.Model.{Status, ExecutionRequest, Approval}
use shudo.State.Tables.{Codec, Tables}
use shudo.State.Requests.{Disk, TxIo, create, store_transition, expire_outstanding}
use shudo.State.Approvals.{accept_approval, begin_execution, finish_execution}
use shudo.State.Output.{AppendIo, append_output}
use shudo.State.Retention.{prune_delete}
use shudo.State.Startup.{recover_interrupted, migrate_local_only, record_security_event}

pub data StoreOp : Type 0 where
  creates : Disk → ExecutionRequest → Bytes → StoreOp
  moves : TxIo → Bytes → Status → Option Status → StoreOp
  expires : Bytes → StoreOp
  accepts : TxIo → Bytes → Approval → StoreOp
  starts : TxIo → Bytes → Option Status → Bytes → StoreOp
  finishes : TxIo → Bytes → Option ℕ → Bytes → Bytes → StoreOp
  appends : AppendIo → Bytes → ℕ → Bytes → Bytes → ℕ → StoreOp
  prunes : TxIo → List Bytes → StoreOp
  recovers : Bytes → StoreOp
  migrates : TxIo → Bytes → StoreOp
  records : Bytes → Bytes → Bytes → Bytes → Bytes → StoreOp

unfoldable pub apply_op : Codec → StoreOp → Tables → Tables
apply_op c (creates d q hash) t = (create c d q hash t).1
apply_op c (moves io id next expected) t = (store_transition c io id next expected t).1
apply_op c (expires now) t = expire_outstanding c now t
apply_op c (accepts io now a) t = (accept_approval c io now a t).1
apply_op c (starts io id expected now) t = (begin_execution c io id expected now t).1
apply_op c (finishes io id code signal now) t = (finish_execution c io id code signal now t).1
apply_op c (appends io id sequence stream bytes limit) t =
    (append_output c io id sequence stream bytes limit t).1
apply_op c (prunes io ids) t = (prune_delete io ids t).1
apply_op c (recovers now) t = recover_interrupted now t
apply_op c (migrates io now) t = (migrate_local_only io now t).1
apply_op c (records kind id hash detail now) t = record_security_event kind id hash detail now t

unfoldable pub run_ops : Codec → List StoreOp → Tables → Tables
run_ops c [] t = t
run_ops c (op ∷ ops) t = run_ops c ops (apply_op c op t)
