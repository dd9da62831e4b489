-- ===== src/Daemon/Submit/Stored.antt =====
-- What a submission that is answered has stored.
use shudo.Prelude.{
  ◌≡◌, refl, sym, ◌∙◌, ap, Bool, true, false, Option, none, some, List, [], ◌∷◌, ◌++◌, Bytes, arith,
  Bool-cases, inl, inr, Result, codes, str_eq, str_eq_iff, str_eq_refl, ok, err, ok_inj, some_inj,
  err_and_ok, str_eq_refl,
}
use mathlib.Core.Path.{subst}
use shudo.Model.{Status, created, waiting, policy_rejected, status_eq, status_eq_iff, Requester}
use shudo.Policy.{deny}
use shudo.State.Sql.{select_first, exists_where, update_where}
use shudo.State.Tables.{Codec, RequestRow, Tables, StoreError, StoredRequest, of_request, row_of}
use shudo.State.Requests.{
  Outcome, new_request, create, has_status, move_row, get_from, unexpected, transaction, transition,
  store_transition, expire_outstanding,
}
use shudo.State.Requests.Creation.{Created, create-ok}
use shudo.State.Requests.Moves.{transition-Moved, transaction-ok, get_from-Loaded}
use shudo.Daemon.Authority.{Peer, RpcError, requester}
use shudo.Daemon.Limits.{Limits, acquire_submission}
use shudo.Daemon.Submission.{SubmitRequest, SubmitError, validate_submit}
use shudo.Daemon.Submit.{
  SubmitEnv, SubmitResponse, Prepared, Service, prepare_request, first_status, answer_status,
  submit_moved, submit_created, submit_prepared, submit_admitted, submit_limited, submit_valid,
  submit_as, submit, too_many, limit_config,
}

module _ {ℓ} {R : Type ℓ} (p q : R → Bool) (f : R → R)
    (inside : (r : R) → q r ≡ true → p r ≡ true) where
  -- An update of rows that are not there, and of one more that is.
  update_where-fresh :
      (rows : List R) (r : R)
      → exists_where p rows ≡ false
      → q r ≡ true
      → update_where q f (rows ++ r ∷ []) ≡ rows ++ f r ∷ []
  unfolding update_where exists_where
  update_where-fresh [] r none_there hit = ground arith
  update_where-fresh (s ∷ rows) r none_there hit =
      ground (arith, inside s, update_where-fresh rows r)

module _ {ℓ} {R : Type ℓ} (p : R → Bool) where
  select_first-fresh :
      (rows : List R) (r : R)
      → exists_where p rows ≡ false
      → p r ≡ true
      → select_first p (rows ++ r ∷ []) ≡ some r
  unfolding select_first exists_where
  select_first-fresh [] r none_there hit = ground arith
  select_first-fresh (s ∷ rows) r none_there hit = ground (arith, select_first-fresh rows r)

abbrev pub first_row : Prepared → Bytes → RequestRow
first_row p raw = record (new_request p.request p.hash raw) { status = first_status p.action }

-- The status of a new request: a denied one is over, and any other waits for root.
pub data FirstStatus : Bytes → Status → Type 0 where
  over : FirstStatus (codes "deny") policy_rejected
  waits : {action : Bytes} → ¬ (action ≡ codes "deny") → FirstStatus action waiting

first_status-FirstStatus : (action : Bytes) → FirstStatus action (first_status action)
unfolding str_eq
first_status-FirstStatus action = elim (Bool-cases (str_eq action deny)) [
  | inl b ↦ rw ((str_eq_iff action deny).0 b) over
  | inr b ↦ rw b (waits (λ e. ground (arith, (str_eq_iff action deny).1 e)))
]

-- One row was added, for a request that was prepared, with the status that the policy gives it.
pub record Stored (e : SubmitEnv) (actor : Requester) (input : SubmitRequest) (t : Tables)
    (r : SubmitResponse) (t' : Tables) : Type 0 where
  pub prepared : Prepared
  pub ready : prepare_request e actor input ≡ ok prepared
  pub raw : Bytes
  pub marshalled : e.codec.marshal_request prepared.request ≡ some raw
  pub fresh : exists_where (of_request prepared.request.request_id) t.requests ≡ false
  pub written : t' ≡ record t { requests = t.requests ++ first_row prepared raw ∷ [] }
  pub answered : r ≡ record {
    request_id = prepared.request.request_id;
    request_hash = prepared.hash;
    status = first_status prepared.action;
  }
  pub first : FirstStatus prepared.action r.status

submit_moved-ok :
    (e : SubmitEnv) (p : Prepared) (o : Outcome) (r : SubmitResponse)
    → (submit_moved e p o).0 ≡ ok r
    → (o.0 ≡ ok tt)
      × (answer_status p (get_from e.codec o.1 p.request.request_id) ≡ ok r)
      × ((submit_moved e p o).1 ≡ o.1)
unfolding submit_moved
submit_moved-ok e p (err x, t) r h = err_and_ok h
submit_moved-ok e p (ok u, t) r h = (refl, h, refl)

-- What `Create` and `Transition` make of a request that is not stored yet.
move_row-fresh :
    (p : Prepared) (raw : Bytes) (t : Tables) (current : Status)
    → exists_where (of_request p.request.request_id) t.requests ≡ false
    → status_eq current created ≡ true
    → move_row p.request.request_id
        (first_status p.action)
        current
        (record t { requests = t.requests ++ new_request p.request p.hash raw ∷ [] })
      ≡ record t { requests = t.requests ++ first_row p raw ∷ [] }
move_row-fresh p raw t current fresh same =
    let here : current ≡ created = (status_eq_iff current created).0 same in
    let hit : has_status p.request.request_id current (new_request p.request p.hash raw) ≡ true =
      ground
        (arith, str_eq_refl p.request.request_id, (status_eq_iff created current).1 (sym here)) in
    ap (λ rows. record t { requests = rows })
      (update_where-fresh (of_request p.request.request_id)
        (has_status p.request.request_id current) (λ r. record r { status = first_status p.action })
        (λ r h. ground arith) t.requests (new_request p.request p.hash raw) fresh hit)

answered-first_row :
    (c : Codec) (p : Prepared) (raw : Bytes) (t t' : Tables) (r : SubmitResponse)
    → exists_where (of_request p.request.request_id) t.requests ≡ false
    → t' ≡ record t { requests = t.requests ++ first_row p raw ∷ [] }
    → answer_status p (get_from c t' p.request.request_id) ≡ ok r
    → r ≡ record {
      request_id = p.request.request_id;
      request_hash = p.hash;
      status = first_status p.action;
    }
answered-first_row c p raw t t' r fresh written = go (get_from c t' p.request.request_id) refl
  where
    go :
        (found : Result StoreError (Option StoredRequest))
        → get_from c t' p.request.request_id ≡ found
        → answer_status p found ≡ ok r
        → r ≡ record {
          request_id = p.request.request_id;
          request_hash = p.hash;
          status = first_status p.action;
        }
    go (err x) f h = err_and_ok h
    go (ok none) f h = err_and_ok h
    go (ok (some q)) f h =
        let l = get_from-Loaded c p.request.request_id t' q f in
        let there : row_of p.request.request_id t' ≡ some (first_row p raw) =
          ap (row_of p.request.request_id) written
          ∙ select_first-fresh (of_request p.request.request_id) t.requests (first_row p raw) fresh
              (str_eq_refl p.request.request_id) in
        let row : l.row ≡ first_row p raw = some_inj (sym l.found ∙ there) in
        let status : q.status ≡ first_status p.action =
          ap (λ (x : StoredRequest). x.status) l.same ∙ ap (λ (x : RequestRow). x.status) row in
        sym (ok_inj h)
        ∙ ap (λ s. record { request_id = p.request.request_id; request_hash = p.hash; status = s })
            status

unexpected-created :
    (current : Status)
    → unexpected (some created) current ≡ false
    → status_eq current created ≡ true
unfolding unexpected
unexpected-created current h = ground arith

submit_moved-Stored :
    (e : SubmitEnv) (actor : Requester) (input : SubmitRequest) (p : Prepared) (t t1 : Tables)
    (r : SubmitResponse)
    → prepare_request e actor input ≡ ok p
    → Created e.codec e.disk p.request p.hash t t1
    → let move = transition e.codec p.request.request_id (first_status p.action) (some created) in
      let o = transaction e.io move t1 in
      (submit_moved e p o).0 ≡ ok r → Stored e actor input t r (submit_moved e p o).1
submit_moved-Stored e actor input p t t1 r ready made h =
    let id = p.request.request_id in
    let next = first_status p.action in
    let move = transition e.codec id next (some created) in
    let o = transaction e.io move t1 in
    let (done, answer, kept) = submit_moved-ok e p o r h in
    let m = transition-Moved e.codec id next (some created) t1 (transaction-ok e.io move t1 done) in
    let written : o.1 ≡ record t { requests = t.requests ++ first_row p made.raw ∷ [] } =
      m.written
      ∙ ap (move_row id next m.current) made.written
      ∙ move_row-fresh p made.raw t m.current made.fresh
          (unexpected-created m.current m.as_expected) in
    let answered = answered-first_row e.codec p made.raw t o.1 r made.fresh written answer in
    record {
      prepared = p;
      ready = ready;
      raw = made.raw;
      marshalled = made.marshalled;
      fresh = made.fresh;
      written = kept ∙ written;
      answered = answered;
      first =
          subst (FirstStatus p.action) (sym (ap (λ (x : SubmitResponse). x.status) answered))
            (first_status-FirstStatus p.action);
    }

submit_created-Stored :
    (e : SubmitEnv) (actor : Requester) (input : SubmitRequest) (p : Prepared) (t : Tables)
    (r : SubmitResponse) (o : Outcome)
    → prepare_request e actor input ≡ ok p
    → create e.codec e.disk p.request p.hash t ≡ o
    → (submit_created e p o).0 ≡ ok r
    → Stored e actor input t r (submit_created e p o).1
unfolding submit_created store_transition
submit_created-Stored e actor input p t r (err x, t1) ready made h = err_and_ok h
submit_created-Stored e actor input p t r (ok u, t1) ready made h =
    let c = create-ok e.codec e.disk p.request p.hash t (ap (λ (x : Outcome). x.0) made) in
    submit_moved-Stored e actor input p t t1 r ready
      (subst (Created e.codec e.disk p.request p.hash t) (ap (λ (x : Outcome). x.1) made) c) h

submit_prepared-Stored :
    (e : SubmitEnv) (actor : Requester) (input : SubmitRequest) (t : Tables) (r : SubmitResponse)
    (found : Result RpcError Prepared)
    → prepare_request e actor input ≡ found
    → (submit_prepared e actor.uid found t).0 ≡ ok r
    → Stored e actor input t r (submit_prepared e actor.uid found t).1
unfolding submit_prepared
submit_prepared-Stored e actor input t r (err x) ready h = err_and_ok h
submit_prepared-Stored e actor input t r (ok p) ready h =
    elim (Bool-cases (too_many e actor.uid t)) [
      | inl full ↦ err_and_ok (rw full at h)
      | inr room ↦ rw room (
          submit_created-Stored e actor input p t r (create e.codec e.disk p.request p.hash t) ready
            refl (rw room at h))
    ]

-- What an answer says of the caller, the message, the limits and the store.
pub record Submitted (e : SubmitEnv) (peer : Peer) (input : SubmitRequest) (s : Service)
    (r : SubmitResponse) (s' : Service) : Type 0 where
  pub actor : Requester
  pub known : requester peer ≡ ok actor
  pub valid : validate_submit input ≡ ok tt
  pub admitted : (acquire_submission (limit_config e.config) e.now actor.uid s.limits).1 ≡ true
  pub room : too_many e actor.uid (expire_outstanding e.codec e.now_text s.tables) ≡ false
  pub stored : Stored e actor input (expire_outstanding e.codec e.now_text s.tables) r s'.tables

submit_admitted-Stored :
    (e : SubmitEnv) (actor : Requester) (input : SubmitRequest) (t : Tables) (r : SubmitResponse)
    → (submit_admitted e actor input t).0 ≡ ok r
    → let t1 = expire_outstanding e.codec e.now_text t in
      (too_many e actor.uid t1 ≡ false)
      × Stored e actor input t1 r (submit_admitted e actor input t).1
unfolding submit_admitted
submit_admitted-Stored e actor input t r h =
    let t1 = expire_outstanding e.codec e.now_text t in
    elim (Bool-cases (too_many e actor.uid t1)) [
      | inl full ↦ err_and_ok (rw full at h)
      | inr room ↦ (
        room,
        rw room (
            submit_prepared-Stored e actor input t1 r (prepare_request e actor input) refl
              (rw room at h)),
      )
    ]

submit_limited-Submitted :
    (e : SubmitEnv) (peer : Peer) (actor : Requester) (input : SubmitRequest) (s : Service)
    (r : SubmitResponse) (a : Limits × Bool)
    → requester peer ≡ ok actor
    → validate_submit input ≡ ok tt
    → acquire_submission (limit_config e.config) e.now actor.uid s.limits ≡ a
    → (submit_limited e actor input s.tables a).0 ≡ ok r
    → Submitted e peer input s r (submit_limited e actor input s.tables a).1
unfolding submit_limited
submit_limited-Submitted e peer actor input s r (l, false) known valid admitted h = err_and_ok h
submit_limited-Submitted e peer actor input s r (l, true) known valid admitted h =
    let (room, stored) = submit_admitted-Stored e actor input s.tables r h in
    record {
      actor = actor;
      known = known;
      valid = valid;
      admitted = ap (λ (x : Limits × Bool). x.1) admitted;
      room = room;
      stored = stored;
    }

-- Where `Submit` answers a response, the caller is known, the message is valid, the call was admitted
-- and there was room under both limits of outstanding requests after the expiry; and the tables are
-- those after the expiry with one row more: that of the prepared request, whose identifier no row
-- had, with its hash and its status, which are those of the response. The status is `PolicyRejected`
-- where the policy's answer is "deny", and `Waiting` where it is any other.
pub submit-Submitted :
    (e : SubmitEnv) (peer : Peer) (input : SubmitRequest) (s : Service) (r : SubmitResponse)
    → (submit e peer input s).0 ≡ ok r
    → Submitted e peer input s r (submit e peer input s).1
unfolding submit submit_as submit_valid
submit-Submitted e peer input s r = go (requester peer) refl
  where
    checked :
        (actor : Requester) (v : Result SubmitError (Unit {0}))
        → requester peer ≡ ok actor
        → validate_submit input ≡ v
        → (submit_valid e actor input s v).0 ≡ ok r
        → Submitted e peer input s r (submit_valid e actor input s v).1
    checked actor (err x) known valid h = err_and_ok h
    checked actor (ok u) known valid h =
        submit_limited-Submitted e peer actor input s r
          (acquire_submission (limit_config e.config) e.now actor.uid s.limits) known valid refl h

    go :
        (who : Result RpcError Requester)
        → requester peer ≡ who
        → (submit_as e who input s).0 ≡ ok r
        → Submitted e peer input s r (submit_as e who input s).1
    go (err x) known h = err_and_ok h
    go (ok actor) known h = checked actor (validate_submit input) known refl h
