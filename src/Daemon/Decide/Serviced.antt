-- ===== src/Daemon/Decide/Serviced.antt =====
-- The decisions and `Cancel` change the tables only by operations of the store that the machine of
-- one request allows.
use mathlib.Core.Path.{subst}
use shudo.Strings.{trim_space}
use shudo.Prelude.{not, ◌&&◌, ◌==◌, sym, ◌≡◌, refl, Option, none, some, Bytes, Result, ok, err}
use shudo.Model.{cancelled, Status, Requester, Approval, status_eq, created, waiting}
use shudo.State.Tables.{Tables, StoredRequest, StoreError}
use shudo.State.Requests.{Outcome, get_from, store_transition, expire_outstanding}
use shudo.State.Approvals.{accept_approval}
use shudo.State.History.{accepts, apply_op}
use shudo.State.Life.{is_gated}
use shudo.Daemon.Authority.{equal, Peer, RpcError, requester, root_requester}
use shudo.Daemon.Decide.{
  CallEnv, DecisionRequest, Reply, decided_already, integrity_failed, answer_accept, accept_new,
  is_approve, hash_matches, bad_reason, decide_found, decide_loaded, decide_as, decide,
  cancel_moved, cancel_loaded, cancel_as, cancel, decision_event,
}
use shudo.State.Life.Serviced.{
  Serviced, done, Serviced-trans, one_op, branch, expired-Serviced, moved-Serviced,
  recorded-Serviced,
}

module _ (e : CallEnv) where
  answer_accept-Serviced :
      (item : StoredRequest) (decision reason : Bytes) (a : Approval) (o : Outcome)
      → Serviced e.codec o.1 (answer_accept e item decision reason a o).tables
  unfolding answer_accept decision_event
  answer_accept-Serviced item decision reason a (err x, t) = done
  answer_accept-Serviced item decision reason a (ok u, t) =
      recorded-Serviced e.codec _ _ _ _ e.now t

  accept_new-Serviced :
      (actor : Requester) (item : StoredRequest) (decision reason : Bytes) (id : Option Bytes)
      (t : Tables)
      → Serviced e.codec t (accept_new e actor item decision reason id t).tables
  unfolding accept_new apply_op
  accept_new-Serviced actor item decision reason none t = done
  accept_new-Serviced actor item decision reason (some id) t =
      Serviced-trans (one_op (accepts e.io e.now _) tt)
        (answer_accept-Serviced item decision reason _ (accept_approval e.codec e.io e.now _ t))

  integrity_failed-Serviced :
      (item : StoredRequest) (t : Tables) → Serviced e.codec t (integrity_failed e item t).tables
  unfolding integrity_failed is_gated
  integrity_failed-Serviced item t =
      Serviced-trans (moved-Serviced e.codec e.io item.request.request_id _ (some waiting) t refl)
        (recorded-Serviced e.codec _ _ _ _ e.now _)

  decide_found-Serviced :
      (actor : Requester) (input : DecisionRequest) (decision reason : Bytes) (item : StoredRequest)
      (t : Tables)
      → Serviced e.codec t (decide_found e actor input decision reason item t).tables
  unfolding decide_found decided_already
  decide_found-Serviced actor input decision reason item t =
      let b = branch (λ (r : Reply). r.tables) e.codec t in
      b (is_approve decision && not (equal input.request_hash item.request_hash)) _ _ done (
        b (not (status_eq item.status waiting)) _ _ done (
          b (not (hash_matches e.hash item)) _ _ (integrity_failed-Serviced item t)
            (accept_new-Serviced actor item decision reason e.uuid t)))

  decide_loaded-Serviced :
      (actor : Requester) (input : DecisionRequest) (decision reason : Bytes)
      (r : Result StoreError (Option StoredRequest)) (t : Tables)
      → Serviced e.codec t (decide_loaded e actor input decision reason r t).tables
  unfolding decide_loaded
  decide_loaded-Serviced actor input decision reason (err x) t = done
  decide_loaded-Serviced actor input decision reason (ok none) t = done
  decide_loaded-Serviced actor input decision reason (ok (some item)) t =
      decide_found-Serviced actor input decision reason item t

  decide_as-Serviced :
      (r : Result RpcError Requester) (input : DecisionRequest) (decision : Bytes) (t : Tables)
      → Serviced e.codec t (decide_as e r input decision t).tables
  unfolding decide_as
  decide_as-Serviced (err x) input decision t = done
  decide_as-Serviced (ok actor) input decision t =
      let t' = expire_outstanding e.codec e.now t in
      let reason = trim_space input.reason in
      branch (λ (r : Reply). r.tables) e.codec t (bad_reason reason) _ _ done
        (Serviced-trans (expired-Serviced e.codec e.now t) (
          decide_loaded-Serviced actor input decision reason (get_from e.codec t' input.request_id)
            t'))

  pub decide-Serviced :
      (peer : Peer) (input : DecisionRequest) (decision : Bytes) (t : Tables)
      → Serviced e.codec t (decide e peer input decision t).tables
  unfolding decide
  decide-Serviced peer input decision t = decide_as-Serviced (root_requester peer) input decision t

  cancel_moved-tables : (o : Outcome) → (cancel_moved o).1 ≡ o.1
  cancel_moved-tables (err x, t) = refl
  cancel_moved-tables (ok u, t) = refl

  cancel_loaded-Serviced :
      (actor : Requester) (id : Bytes) (r : Result StoreError (Option StoredRequest)) (t : Tables)
      → Serviced e.codec t (cancel_loaded e actor id r t).1
  unfolding cancel_loaded is_gated
  cancel_loaded-Serviced actor id (err x) t = done
  cancel_loaded-Serviced actor id (ok none) t = done
  cancel_loaded-Serviced actor id (ok (some item)) t =
      let b = branch (λ (r : Result RpcError Status × Tables). r.1) e.codec t in
      let moved = store_transition e.codec e.io id cancelled (some item.status) t in
      b (not (actor.uid == 0) && not (actor.uid == item.request.requester.uid)) _ _ done (
        b (not (status_eq item.status created) && not (status_eq item.status waiting)) _ _ done (
          subst (Serviced e.codec t) (sym (cancel_moved-tables moved))
            (moved-Serviced e.codec e.io id cancelled (some item.status) t refl)))

  cancel_as-Serviced :
      (r : Result RpcError Requester) (id : Bytes) (t : Tables)
      → Serviced e.codec t (cancel_as e r id t).1
  unfolding cancel_as
  cancel_as-Serviced (err x) id t = done
  cancel_as-Serviced (ok actor) id t = cancel_loaded-Serviced actor id (get_from e.codec t id) t

  pub cancel-Serviced :
      (peer : Peer) (id : Bytes) (t : Tables) → Serviced e.codec t (cancel e peer id t).1
  unfolding cancel
  cancel-Serviced peer id t = cancel_as-Serviced (requester peer) id t
