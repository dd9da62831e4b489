-- ===== src/Daemon/Decide/Outcomes.antt =====
-- What a decision can do.
use shudo.Prelude.{
  ◌≡◌, ◌≢◌, refl, ap, ◌⊎◌, inl, inr, Bool, true, false, not, ◌&&◌, Option, none, some, Bytes, arith,
  Bool-cases, str_eq_iff, Result, ok, err,
}
use shudo.Strings.{trim_space}
use shudo.Model.{waiting, status_eq, status_eq_iff, Requester, Approval}
use shudo.State.Tables.{Tables, StoredRequest, StoreError}
use shudo.State.Requests.{get_from, expire_outstanding, Outcome}
use shudo.State.Approvals.{approval_for, accept_approval}
use shudo.Daemon.Authority.{Peer, missing, other_auth, credentials, RpcError, root_requester, equal}
use shudo.Daemon.Decide.{
  CallEnv, DecisionRequest, DecisionResponse, Reply, is_approve, or_else, check_existing,
  existing_decision, decided_already, new_decision, answer_accept, accept_new, integrity_failed,
  hash_matches, decide_found, decide_loaded, bad_reason, decide_as, decide,
}

-- A process that runs as root.
abbrev pub IsRoot : Peer → Type 0
IsRoot missing = ⊥
IsRoot other_auth = ⊥
IsRoot (credentials auth) = auth.uid ≡ 0

pub root_requester-IsRoot :
    (peer : Peer) (actor : Requester) → root_requester peer ≡ ok actor → IsRoot peer
unfolding root_requester
root_requester-IsRoot missing actor h = cc
root_requester-IsRoot other_auth actor h = cc
root_requester-IsRoot (credentials auth) actor h = ground arith

pub equal-eq : (a b : Bytes) → equal a b ≡ true → a ≡ b
unfolding equal
equal-eq a b h = (str_eq_iff a b).0 (ground arith)

-- The decision that is stored about the request, and that the answer repeats.
pub record Repeated (e : CallEnv) (item : StoredRequest) (decision : Bytes) (t : Tables)
    (response : DecisionResponse) : Type 0 where
  pub stored : Approval
  pub found : approval_for e.codec t item.request.request_id ≡ ok (some stored)
  pub same_decision : stored.decision ≡ decision
  pub same_request : stored.request_id ≡ item.request.request_id
  pub same_hash : stored.request_hash ≡ item.request_hash
  pub same_approval : response.approval_id ≡ stored.approval_id

-- The decision that was stored by this call: the request was waiting, its hash was computed again,
-- and the transaction that stores the decision and moves the request committed.
pub record Stored (e : CallEnv) (item : StoredRequest) (decision reason : Bytes) (t : Tables)
    (response : DecisionResponse) : Type 0 where
  pub is_waiting : item.status ≡ waiting
  pub unchanged : hash_matches e.hash item ≡ true
  pub actor : Requester
  pub accepted :
      (accept_approval e.codec e.io e.now
        (new_decision e actor item decision reason response.approval_id)
        t).0
      ≡ ok tt

check_existing-Repeated :
    (e : CallEnv) (item : StoredRequest) (decision : Bytes) (t : Tables)
    (r : Result StoreError (Option Approval)) (response : DecisionResponse)
    → approval_for e.codec t item.request.request_id ≡ r
    → check_existing item decision r ≡ ok (some response)
    → Repeated e item decision t response
unfolding check_existing
check_existing-Repeated e item decision t (err x) response f h = cc
check_existing-Repeated e item decision t (ok none) response f h = cc
check_existing-Repeated e item decision t (ok (some a)) response f h = record {
  stored = a;
  found = f;
  same_decision = (str_eq_iff a.decision decision).0 (ground arith);
  same_request = equal-eq a.request_id item.request.request_id (ground arith);
  same_hash = equal-eq a.request_hash item.request_hash (ground arith);
  same_approval = ground arith;
}

existing_decision-Repeated :
    (e : CallEnv) (item : StoredRequest) (decision : Bytes) (t : Tables)
    (response : DecisionResponse)
    → existing_decision e.codec item decision t ≡ ok (some response)
    → Repeated e item decision t response
unfolding existing_decision
existing_decision-Repeated e item decision t response h =
    check_existing-Repeated e item decision t (approval_for e.codec t item.request.request_id)
      response refl h

-- The answer of `or_else` is the one that is stored.
or_else-ok :
    (r : Result RpcError (Option DecisionResponse)) (x : RpcError) (response : DecisionResponse)
    → or_else r x ≡ ok response
    → r ≡ ok (some response)
or_else-ok (err y) x response h = cc
or_else-ok (ok none) x response h = cc
or_else-ok (ok (some r)) x response h = ground arith

abbrev pub Basis :
    CallEnv → StoredRequest → Bytes → Bytes → Tables → Reply → DecisionResponse → Type 0
Basis e item decision reason t reply response =
    Repeated e item decision reply.tables response ⊎ Stored e item decision reason t response

answer_accept-Basis :
    (e : CallEnv) (actor : Requester) (item : StoredRequest) (decision reason approval_id : Bytes)
    (t : Tables) (o : Outcome) (response : DecisionResponse)
    → item.status ≡ waiting
    → hash_matches e.hash item ≡ true
    → accept_approval e.codec e.io e.now (new_decision e actor item decision reason approval_id) t
      ≡ o
    → let reply =
        answer_accept e item decision reason
          (new_decision e actor item decision reason approval_id)
          o in
      reply.answer ≡ ok response → Basis e item decision reason t reply response
unfolding answer_accept new_decision
answer_accept-Basis e actor item decision reason approval_id t (ok u, t') response w k a h =
    inr (record {
      is_waiting = w;
      unchanged = k;
      actor = actor;
      accepted =
          let same : response.approval_id ≡ approval_id = ground arith in
          rw same (ap (λ (o : Outcome). o.0) a);
    })
answer_accept-Basis e actor item decision reason approval_id t (err x, t') response w k a h =
    inl (existing_decision-Repeated e item decision t' response (or_else-ok _ _ response h))

accept_new-Basis :
    (e : CallEnv) (actor : Requester) (item : StoredRequest) (decision reason : Bytes)
    (uuid : Option Bytes) (t : Tables) (response : DecisionResponse)
    → item.status ≡ waiting
    → hash_matches e.hash item ≡ true
    → let reply = accept_new e actor item decision reason uuid t in
      reply.answer ≡ ok response → Basis e item decision reason t reply response
unfolding accept_new
accept_new-Basis e actor item decision reason none t response w k h = cc
accept_new-Basis e actor item decision reason (some approval_id) t response w k h =
    answer_accept-Basis e actor item decision reason approval_id t _ response w k refl h

-- What holds of a decision that is answered with success.
pub record Granted (e : CallEnv) (input : DecisionRequest) (decision reason : Bytes) (t : Tables)
    (reply : Reply) (response : DecisionResponse) : Type 0 where
  pub item : StoredRequest
  pub loaded : get_from e.codec t input.request_id ≡ ok (some item)
  pub confirmed : (is_approve decision ≡ false) ⊎ (input.request_hash ≡ item.request_hash)
  pub basis : Basis e item decision reason t reply response

confirmed_hash : (a b : Bytes) (x : Bool) → (x && not (equal a b)) ≡ false → (x ≡ false) ⊎ (a ≡ b)
confirmed_hash a b false h = inl refl
confirmed_hash a b true h = inr (equal-eq a b (ground arith))

decided_already-Repeated :
    (e : CallEnv) (item : StoredRequest) (decision : Bytes) (t : Tables)
    (response : DecisionResponse)
    → let reply = decided_already e.codec item decision t in
      reply.answer ≡ ok response → Repeated e item decision reply.tables response
unfolding decided_already
decided_already-Repeated e item decision t response h =
    existing_decision-Repeated e item decision t response (or_else-ok _ _ response h)

integrity_failed-err :
    (e : CallEnv) (item : StoredRequest) (t : Tables) (response : DecisionResponse)
    → (integrity_failed e item t).answer ≢ ok response
unfolding integrity_failed
integrity_failed-err e item t response h = cc

decide_found-Granted :
    (e : CallEnv) (actor : Requester) (input : DecisionRequest) (decision reason : Bytes)
    (item : StoredRequest) (t : Tables) (response : DecisionResponse)
    → get_from e.codec t input.request_id ≡ ok (some item)
    → let reply = decide_found e actor input decision reason item t in
      reply.answer ≡ ok response → Granted e input decision reason t reply response
unfolding decide_found
decide_found-Granted e actor input decision reason item t response g =
    elim (Bool-cases (is_approve decision && not (equal input.request_hash item.request_hash))) [
      | inl unconfirmed ↦ rw unconfirmed (λ h. cc)
      | inr confirmed ↦
          let same = confirmed_hash input.request_hash item.request_hash _ confirmed in
          elim (Bool-cases (status_eq item.status waiting)) [
            | inr other ↦
                rw (confirmed, other)
                  (λ h. record {
                    item = item;
                    loaded = g;
                    confirmed = same;
                    basis = inl (decided_already-Repeated e item decision t response h);
                  })
            | inl is ↦ elim (Bool-cases (hash_matches e.hash item)) [
              | inr changed ↦
                  rw (confirmed, is, changed)
                    (λ h. absurd (integrity_failed-err e item t response h))
              | inl unchanged ↦
                  rw (confirmed, is, unchanged)
                    (λ h. record {
                      item = item;
                      loaded = g;
                      confirmed = same;
                      basis =
                          accept_new-Basis e actor item decision reason e.uuid t response
                            ((status_eq_iff item.status waiting).0 is) unchanged h;
                    })
            ]
          ]
    ]

decide_loaded-Granted :
    (e : CallEnv) (actor : Requester) (input : DecisionRequest) (decision reason : Bytes)
    (r : Result StoreError (Option StoredRequest)) (t : Tables) (response : DecisionResponse)
    → get_from e.codec t input.request_id ≡ r
    → let reply = decide_loaded e actor input decision reason r t in
      reply.answer ≡ ok response → Granted e input decision reason t reply response
unfolding decide_loaded
decide_loaded-Granted e actor input decision reason (err x) t response g h = cc
decide_loaded-Granted e actor input decision reason (ok none) t response g h = cc
decide_loaded-Granted e actor input decision reason (ok (some item)) t response g h =
    decide_found-Granted e actor input decision reason item t response g h

decide_as-Granted :
    (e : CallEnv) (r : Result RpcError Requester) (input : DecisionRequest) (decision : Bytes)
    (t : Tables) (response : DecisionResponse)
    → let reply = decide_as e r input decision t in
      reply.answer ≡ ok response
      → Granted e input decision
          (trim_space input.reason)
          (expire_outstanding e.codec e.now t)
          reply
          response
unfolding decide_as
decide_as-Granted e (err x) input decision t response = λ h. cc
decide_as-Granted e (ok actor) input decision t response =
    elim (Bool-cases (bad_reason (trim_space input.reason))) [
      | inl bad ↦ rw bad (λ h. cc)
      | inr good ↦ rw good (
          decide_loaded-Granted e actor input decision (trim_space input.reason)
            (get_from e.codec (expire_outstanding e.codec e.now t) input.request_id)
            (expire_outstanding e.codec e.now t) response refl)
    ]

decide_as-IsRoot :
    (e : CallEnv) (peer : Peer) (r : Result RpcError Requester) (input : DecisionRequest)
    (decision : Bytes) (t : Tables) (response : DecisionResponse)
    → root_requester peer ≡ r
    → (decide_as e r input decision t).answer ≡ ok response
    → IsRoot peer
unfolding decide_as
decide_as-IsRoot e peer (err x) input decision t response p h = cc
decide_as-IsRoot e peer (ok actor) input decision t response p h =
    root_requester-IsRoot peer actor p

-- If `decide` answers with success, then the caller is root, the request is stored, an approval
-- names the stored hash, and either the answer repeats a decision that is stored for the request
-- with the same decision, identifier and hash, or the request was waiting, its hash computed again
-- is the stored one, and this call stored the decision.
pub decide-Granted :
    (e : CallEnv) (peer : Peer) (input : DecisionRequest) (decision : Bytes) (t : Tables)
    (response : DecisionResponse)
    → (decide e peer input decision t).answer ≡ ok response
    → IsRoot peer
      × Granted e input decision
          (trim_space input.reason)
          (expire_outstanding e.codec e.now t)
          (decide e peer input decision t)
          response
unfolding decide
decide-Granted e peer input decision t response h = (
  decide_as-IsRoot e peer (root_requester peer) input decision t response refl h,
  decide_as-Granted e (root_requester peer) input decision t response h,
)

decide_as-refused :
    (e : CallEnv) (peer : Peer) (r : Result RpcError Requester) (input : DecisionRequest)
    (decision : Bytes) (t : Tables)
    → ¬ IsRoot peer
    → root_requester peer ≡ r
    → ((decide_as e r input decision t).tables ≡ t)
      × ((decide_as e r input decision t).starts ≡ false)
      × ((x : RpcError) × ((decide_as e r input decision t).answer ≡ err x))
unfolding decide_as
decide_as-refused e peer (err x) input decision t n p = (refl, refl, (x, refl))
decide_as-refused e peer (ok actor) input decision t n p =
    absurd (n (root_requester-IsRoot peer actor p))

-- A caller that is not root is refused: the tables stay, and nothing is executed.
pub decide-refused :
    (e : CallEnv) (peer : Peer) (input : DecisionRequest) (decision : Bytes) (t : Tables)
    → ¬ IsRoot peer
    → ((decide e peer input decision t).tables ≡ t)
      × ((decide e peer input decision t).starts ≡ false)
      × ((x : RpcError) × ((decide e peer input decision t).answer ≡ err x))
unfolding decide
decide-refused e peer input decision t n =
    decide_as-refused e peer (root_requester peer) input decision t n refl
