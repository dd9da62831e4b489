-- ===== src/State/Startup.antt =====
-- `Open` on an existing database: `recoverInterrupted` and `migrateLocalOnly`; and
-- `RecordSecurityEvent`.
pub mod Migration
pub mod Interrupted
use shudo.Prelude.{
  Bool, true, false, none, Option, some, [], ◌∷◌, ◌++◌, Bytes, codes, take, length, if◌then◌else◌,
  ltb, str_eq, Result, ok,
}
use shudo.Model.{
  policy_rejected, queued, synced, waiting, approved, executing, failed, status_eq, status_in,
}
use shudo.State.Sql.{select_first, update_where, delete_where}
use shudo.State.Tables.{RequestRow, ExecutionRow, StateRow, EventRow, Tables, StoreError}
use shudo.State.Requests.{TxIo, Outcome, transaction}
use shudo.State.Approvals.{nullable}

abbrev pub daemon_restart : Bytes
daemon_restart = codes "DAEMON_RESTART"

pub is_unfinished : ExecutionRow → Bool
is_unfinished e = elim e.finished_at [ none ↦ true | some _ ↦ false ]

-- The executions that a restart interrupted have failed.
unfoldable pub recover_interrupted : Bytes → Tables → Tables
unfolding is_unfinished
recover_interrupted now t = record t {
  requests =
      update_where (λ r. status_eq r.status executing) (λ r. record r { status = failed })
        t.requests;
  executions =
      update_where is_unfinished
        (λ e. record e { finished_at = some now; signal = some daemon_restart }) t.executions;
}

abbrev pub local_only : Bytes
local_only = codes "local_only_v2"

abbrev pub quarantine : Bytes
quarantine = codes "approval_channel_quarantine"

has_key : Bytes → StateRow → Bool
has_key k s = str_eq s.key k

-- The requests of the remote version that had not started.
unfoldable pub is_remote_pending : RequestRow → Bool
unfolding status_in
is_remote_pending r = status_in r.status (queued ∷ synced ∷ waiting ∷ approved ∷ [])

migration_event : Bytes → EventRow
migration_event now = record {
  kind = codes "migration.local-only";
  request_id = none;
  input_hash = none;
  detail = codes "Remote approval state disabled; old pending requests rejected";
  occurred_at = now;
}

migrate_in : Bytes → Tables → Result StoreError Tables
unfolding migration_event has_key is_remote_pending
migrate_in now t = ok (record t {
  requests = update_where is_remote_pending (λ r. record r { status = policy_rejected }) t.requests;
  outbound_events = false;
  used_nonces = false;
  host_id_column = false;
  server_state =
      delete_where (has_key quarantine) t.server_state
      ++ record { key = local_only; value = codes "enabled" } ∷ [];
  security_events = t.security_events ++ migration_event now ∷ [];
})

-- The marker says that an earlier start has done it.
migrate_unless : TxIo → Bytes → Option StateRow → Tables → Outcome
unfolding migrate_in
migrate_unless io now none t = transaction io (migrate_in now) t
migrate_unless io now (some marker) t = (ok tt, t)

unfoldable pub migrate_local_only : TxIo → Bytes → Tables → Outcome
unfolding migrate_unless
migrate_local_only io now t =
    migrate_unless io now (select_first (has_key local_only) t.server_state) t

-- `Open`: the schema is there already.
unfoldable pub open_store : TxIo → Bytes → Tables → Outcome
unfolding recover_interrupted migrate_local_only
open_store io now t = migrate_local_only io now (recover_interrupted now t)

-- `RecordSecurityEvent`: at most 512 bytes of detail.
unfoldable pub record_security_event : Bytes → Bytes → Bytes → Bytes → Bytes → Tables → Tables
unfolding nullable
record_security_event kind id input_hash detail now t = record t {
  security_events =
      t.security_events
      ++ record {
        kind = kind;
        request_id = nullable id;
        input_hash = nullable input_hash;
        detail = if ltb 512 (length detail) then take 512 detail else detail;
        occurred_at = now;
      }
        ∷ [];
}
