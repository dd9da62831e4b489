-- ===== src/Cli/Admin/Confirmed.antt =====
-- What root confirmed is what is approved.
use shudo.Prelude.{
  ◌≡◌, refl, ◌⊎◌, inl, inr, true, false, Option, none, some, some_inj, Bytes, arith, ◌==◌, ==_iff,
  Bool-cases, str_eq_iff, is_empty, Result, ok, err,
}
use mathlib.Core.Path.{subst}
use shudo.Daemon.Decide.{DecisionRequest}
use shudo.Daemon.Records.{RequestRecord}
use shudo.Cli.Parse.{AdminOptions, approve}
use shudo.Cli.Select.{SelectError}
use shudo.Cli.Admin.{
  AdminEnv, AdminError, select_with, confirmation, approve_confirmed, approve_inspected,
  run_approve, run_operation, run_admin,
}

-- The request that was selected, its record as it was inspected, and how that was confirmed.
pub record IsConfirmed (e : AdminEnv) (o : AdminOptions) (request : DecisionRequest) : Type 0 where
  pub selected : select_with e o.request_id false ≡ ok request.request_id
  pub inspected : RequestRecord
  pub seen : e.inspect request.request_id ≡ some inspected
  pub same_hash : request.request_hash ≡ inspected.request_hash
  pub confirmed : (o.confirm_hash ≡ inspected.request_hash) ⊎ (e.confirms inspected ≡ true)

confirmation-ok :
    (e : AdminEnv) (o : AdminOptions) (r : RequestRecord)
    → confirmation e o r ≡ ok tt
    → (o.confirm_hash ≡ r.request_hash) ⊎ (e.confirms r ≡ true)
unfolding confirmation
confirmation-ok e o r h = elim (Bool-cases (is_empty o.confirm_hash)) [
  | inl at_terminal ↦ inr (ground arith)
  | inr by_hash ↦ inl ((str_eq_iff o.confirm_hash r.request_hash).0 (ground arith))
]

approve_inspected-IsConfirmed :
    (e : AdminEnv) (o : AdminOptions) (id : Bytes) (found : Option RequestRecord)
    (request : DecisionRequest)
    → select_with e o.request_id false ≡ ok id
    → e.inspect id ≡ found
    → (approve_inspected e o id found).sent ≡ some request
    → IsConfirmed e o request
unfolding approve_inspected
approve_inspected-IsConfirmed e o id none request s f h = cc
approve_inspected-IsConfirmed e o id (some r) request s f h = go (confirmation e o r) refl h
  where
    go :
        (c : Result AdminError (Unit {0}))
        → confirmation e o r ≡ c
        → (approve_confirmed e o id r c).sent ≡ some request
        → IsConfirmed e o request
    go (err x) c g = cc
    go (ok u) c g = subst (IsConfirmed e o) (some_inj g) (record {
      selected = s;
      inspected = r;
      seen = f;
      same_hash = refl;
      confirmed = confirmation-ok e o r c;
    })

run_approve-IsConfirmed :
    (e : AdminEnv) (o : AdminOptions) (selected : Result SelectError Bytes)
    (request : DecisionRequest)
    → select_with e o.request_id false ≡ selected
    → (run_approve e o selected).sent ≡ some request
    → IsConfirmed e o request
unfolding run_approve
run_approve-IsConfirmed e o (err x) request s h = cc
run_approve-IsConfirmed e o (ok id) request s h =
    approve_inspected-IsConfirmed e o id (e.inspect id) request s refl h

-- Where `runAdmin` sends an approval, the caller is root and the connection stands; the request is the
-- one selected among the pending ones; and the hash sent is that of the record that was inspected,
-- which was confirmed by that hash or at the terminal.
pub run_admin-IsConfirmed :
    (e : AdminEnv) (o : AdminOptions) (request : DecisionRequest)
    → o.operation ≡ approve
    → (run_admin e o).sent ≡ some request
    → (e.euid ≡ 0) × (e.connects ≡ true) × IsConfirmed e o request
unfolding run_admin run_operation confirmation
run_admin-IsConfirmed e o request asked h = elim (Bool-cases (e.euid == 0)) [
  | inr other ↦ absurd (ground arith)
  | inl root ↦ elim (Bool-cases e.connects) [
    | inr cut ↦ absurd (ground arith)
    | inl connected ↦ (
      (==_iff e.euid 0).0 root,
      connected,
      run_approve-IsConfirmed e o (select_with e o.request_id false) request refl
          (rw (root, connected, asked) at h),
    )
  ]
]
