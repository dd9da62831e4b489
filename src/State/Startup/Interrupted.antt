-- ===== src/State/Startup/Interrupted.antt =====
-- What `Open` leaves of executions that a stop interrupted.
use shudo.Prelude.{◌≡◌, refl, ap, ◌∙◌, inl, inr, Bool, false, List, [], ◌∷◌, Bytes, arith}
use shudo.Model.{executing, failed, policy_rejected, status_eq}
use shudo.State.Sql.{exists_where, update_where}
use shudo.State.Tables.{RequestRow, Tables}
use shudo.State.Requests.{TxIo}
use shudo.State.Startup.{is_unfinished, recover_interrupted, open_store}
use shudo.State.Startup.Migration.{migrate_local_only-cases}

abbrev pub is_executing : RequestRow → Bool
is_executing r = status_eq r.status executing

module _ {R : Type 0} (p q : R → Bool) (f : R → R) (leaves : (r : R) → p (f r) ≡ false) where
  update_where-all : (rows : List R) → exists_where p (update_where p f rows) ≡ false
  unfolding exists_where update_where
  update_where-all [] = refl
  update_where-all (r ∷ rows) = ground (arith, leaves r, update_where-all rows)

  update_where-some :
      (rows : List R) → exists_where p rows ≡ false → exists_where p (update_where q f rows) ≡ false
  unfolding exists_where update_where
  update_where-some [] h = refl
  update_where-some (r ∷ rows) h = ground (arith, leaves r, update_where-some rows)

-- Whatever the tables hold and whether or not the migration commits, after `Open` no request is
-- executing and no execution is without an end.
pub open_store-is_executing :
    (io : TxIo) (now : Bytes) (t : Tables)
    → (exists_where is_executing (open_store io now t).1.requests ≡ false)
      × (exists_where is_unfinished (open_store io now t).1.executions ≡ false)
unfolding open_store recover_interrupted status_eq is_unfinished
open_store-is_executing io now t =
    let requests =
      update_where-all is_executing is_executing (λ r. record r { status = failed }) (λ r. refl)
        t.requests in
    let executions = update_where-all is_unfinished is_unfinished _ (λ e. refl) t.executions in
    elim (migrate_local_only-cases io now (recover_interrupted now t)) [
      | inl same ↦ (
        ap (λ (u : Tables). exists_where is_executing u.requests) same ∙ requests,
        ap (λ (u : Tables). exists_where is_unfinished u.executions) same ∙ executions,
      )
      | inr m ↦ (
        ap (exists_where is_executing) m.requests
            ∙ update_where-some is_executing _ (λ r. record r { status = policy_rejected })
                (λ r. refl) _ requests,
        ap (exists_where is_unfinished) m.executions ∙ executions,
      )
    ]
