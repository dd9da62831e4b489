-- ===== src/State/Startup/Migration.antt =====
-- What `migrateLocalOnly` did when it wrote.
use shudo.Prelude.{◌≡◌, refl, ◌⊎◌, inl, inr, Option, none, some, Bytes, arith}
use shudo.Model.{policy_rejected}
use shudo.State.Sql.{update_where, select_first}
use shudo.State.Tables.{StateRow, Tables}
use shudo.State.Requests.{TxIo}
use shudo.State.Requests.Moves.{transaction-cases}
use shudo.State.Startup.{
  is_remote_pending, has_key, local_only, migrate_in, migrate_unless, migrate_local_only,
}

pub record Migrated (t t' : Tables) : Type 0 where
  pub requests :
      t'.requests
      ≡ update_where is_remote_pending (λ r. record r { status = policy_rejected }) t.requests
  pub approvals : t'.approvals ≡ t.approvals
  pub executions : t'.executions ≡ t.executions
  pub output_chunks : t'.output_chunks ≡ t.output_chunks

migrate_unless-cases :
    (io : TxIo) (now : Bytes) (marker : Option StateRow) (t : Tables)
    → ((migrate_unless io now marker t).1 ≡ t) ⊎ Migrated t (migrate_unless io now marker t).1
unfolding migrate_unless
migrate_unless-cases io now (some marker) t = inl refl
migrate_unless-cases io now none t = elim (transaction-cases io (migrate_in now) t) [
  | inl same ↦ inl same
  | inr (t', done, left) ↦ inr (
      rw left (record {
        requests = ground arith;
        approvals = ground arith;
        executions = ground arith;
        output_chunks = ground arith;
      }))
]

pub migrate_local_only-cases :
    (io : TxIo) (now : Bytes) (t : Tables)
    → ((migrate_local_only io now t).1 ≡ t) ⊎ Migrated t (migrate_local_only io now t).1
unfolding migrate_local_only
migrate_local_only-cases io now t =
    migrate_unless-cases io now (select_first (has_key local_only) t.server_state) t
