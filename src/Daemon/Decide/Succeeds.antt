-- ===== src/Daemon/Decide/Succeeds.antt =====
-- When root's approval succeeds, and what it leaves for the execution.
use mathlib.Core.Path.{subst}
use shudo.Prelude.{
  ◌≡◌, refl, ap, ◌∙◌, sym, true, false, none, some, List, [], ◌∷◌, ◌++◌, Bytes, ok, str_eq,
  str_eq_iff,
}
use shudo.Strings.{trim_space}
use shudo.Model.{waiting, approved, Requester, ExecutionRequest, Approval, status_eq, status_eq_iff}
use shudo.State.Sql.{
  exists_where, count_where, select_first, count_where-append, exists_where-of_count,
}
use shudo.State.Tables.{Codec, RequestRow, ApprovalRow, Tables, approval_of}
use shudo.State.Requests.{get_from, expire_outstanding, stored_request, move_row}
use shudo.State.Requests.Succeeds.{HasRow, get_from-found, move_row-HasRow, same-HasRow}
use shudo.State.Approvals.{
  approve_text, approval_for, is_valid_approval, new_approval, is_unconsumed, decided_status,
  accept_approval, decode_approval,
}
use shudo.State.Approvals.Succeeds.{with_decision, accept_approval-succeeds}
use shudo.State.Life.Views.{select_first-append_new, select_first-fresh}
use shudo.State.Life.Ballots.{unconsumed-approval_of}
use shudo.State.Startup.{record_security_event}
use shudo.Daemon.Authority.{Peer, root_requester, equal}
use shudo.Daemon.Decide.{
  CallEnv, DecisionRequest, Reply, new_decision, decide, decide_as, decide_loaded, decide_found,
  accept_new, answer_accept, hash_matches, bad_reason, decision_event,
}

-- A waiting request that can be approved with this message: its content is its own, its hash is the
-- one of the message and of the content, it has no decision, and the new identifier is not in use.
pub record Approvable (e : CallEnv) (input : DecisionRequest) (actor : Requester)
    (q : ExecutionRequest) (r : RequestRow) (id raw : Bytes) (t : Tables) : Type 0 where
  pub row : HasRow e.codec input.request_id waiting q r t
  pub own : q.request_id ≡ input.request_id
  pub named : equal input.request_hash r.request_hash ≡ true
  pub hashed : hash_matches e.hash (stored_request r q) ≡ true
  pub reason : bad_reason (trim_space input.reason) ≡ false
  pub uuid : e.uuid ≡ some id
  pub begins : e.io.begins ≡ true
  pub commits : e.io.commits ≡ true
  pub undecided : exists_where (approval_of input.request_id) t.approvals ≡ false
  pub fresh : exists_where (λ b. str_eq b.approval_id id) t.approvals ≡ false
  pub valid :
      is_valid_approval
        (new_decision e actor (stored_request r q) approve_text (trim_space input.reason) id)
      ≡ true
  pub marshalled :
      e.codec.marshal_approval
        (new_decision e actor (stored_request r q) approve_text (trim_space input.reason) id)
      ≡ some raw

module _ (e : CallEnv) (input : DecisionRequest) (actor : Requester) (q : ExecutionRequest)
    (r : RequestRow) (id raw : Bytes) (t : Tables) (h : Approvable e input actor q r id raw t) where
  -- The decision that is made.
  abbrev pub the_decision : Approval
  the_decision = new_decision e actor (stored_request r q) approve_text (trim_space input.reason) id

  abbrev decided_tables : Tables
  decided_tables = move_row q.request_id approved waiting (with_decision e.now raw the_decision t)

  accepted : accept_approval e.codec e.io e.now the_decision t ≡ (ok tt, decided_tables)
  unfolding new_decision decided_status str_eq
  accepted =
      accept_approval-succeeds e.codec e.io e.now q r t h.begins h.commits the_decision raw
        (subst (λ (j : Bytes). HasRow e.codec j waiting q r t) (sym h.own) h.row) h.valid
        h.marshalled
        (subst (λ (j : Bytes). exists_where (approval_of j) t.approvals ≡ false) (sym h.own)
          h.undecided)
        h.fresh refl

  found_decides :
      decide_found e actor input approve_text (trim_space input.reason) (stored_request r q) t
      ≡ answer_accept e
          (stored_request r q)
          approve_text
          (trim_space input.reason)
          the_decision
          (ok tt, decided_tables)
  unfolding decide_found accept_new str_eq
  found_decides =
      let waits : status_eq r.status waiting ≡ true =
        (status_eq_iff r.status waiting).1 h.row.status in
      let reason = trim_space input.reason in
      let accepts : decide_found e actor input approve_text reason (stored_request r q) t
          ≡ accept_new e actor (stored_request r q) approve_text reason e.uuid t =
        rw (h.named, waits, h.hashed) refl in
      accepts
      ∙ ap (λ u. accept_new e actor (stored_request r q) approve_text reason u t) h.uuid
      ∙ ap (answer_accept e (stored_request r q) approve_text reason the_decision) accepted

decoded :
    (c : Codec) (row : ApprovalRow) {a : Approval}
    → c.unmarshal_approval row.approval_json ≡ some a
    → decode_approval c (some row) ≡ ok (some a)
unfolding decode_approval
decoded c row e = rw (decode_approval, e) refl

-- What an approval leaves: the request is approved, its decision is the one that is stored, and not
-- used; the executions are as before.
pub record Approved (c : Codec) (id : Bytes) (q : ExecutionRequest) (hash : Bytes) (t t' : Tables)
    : Type 0 where
  pub row : RequestRow
  pub is_row : HasRow c id approved q row t'
  pub same_hash : row.request_hash ≡ hash
  pub decision : Approval
  pub stored : approval_for c t' id ≡ ok (some decision)
  pub approves : decision.decision ≡ approve_text
  pub about : decision.request_id ≡ q.request_id
  pub bound : decision.request_hash ≡ hash
  pub unused : count_where (is_unconsumed id) t'.approvals ≡ 1
  pub executions : t'.executions ≡ t.executions

module _ (id : Bytes) (old : List ApprovalRow) (a : ApprovalRow)
    (own : str_eq a.request_id id ≡ true)
    (undecided : exists_where (approval_of id) old ≡ false) where
  one_unused : a.consumed_at ≡ none → count_where (is_unconsumed id) (old ++ a ∷ []) ≡ 1
  unfolding count_where is_unconsumed
  one_unused unused =
      let none_before =
        exists_where-of_count (is_unconsumed id) (approval_of id) (unconsumed-approval_of id) old
          undecided in
      count_where-append (is_unconsumed id) old (a ∷ []) ∙ rw (own, unused, none_before) refl

  first_decision : select_first (approval_of id) (old ++ a ∷ []) ≡ some a
  unfolding select_first exists_where
  first_decision =
      select_first-append_new (approval_of id) old (a ∷ [])
        (select_first-fresh (approval_of id) old undecided)
      ∙ rw own refl

module _ (e : CallEnv) (input : DecisionRequest) (actor : Requester) (q : ExecutionRequest)
    (r : RequestRow) (id raw : Bytes) (t : Tables) (h : Approvable e input actor q r id raw t)
    (same : e.codec.unmarshal_approval raw ≡ some (the_decision e input actor q r id raw t h)) where
  left : Tables
  left =
      (answer_accept e (stored_request r q) approve_text (trim_space input.reason)
        (the_decision e input actor q r id raw t h)
        (ok tt, decided_tables e input actor q r id raw t h)).tables

  left-Approved : Approved e.codec input.request_id q r.request_hash t left
  unfolding left answer_accept decision_event record_security_event approval_for decode_approval
      new_decision
  left-Approved =
      let own : str_eq q.request_id input.request_id ≡ true = (str_eq_iff _ _).1 h.own in
      let waits = subst (λ (j : Bytes). HasRow e.codec j waiting q r t) (sym h.own) h.row in
      let made = with_decision e.now raw (the_decision e input actor q r id raw t h) t in
      let moved =
        move_row-HasRow e.codec q.request_id waiting q r made (same-HasRow t made refl waits)
          approved in
      record {
        row = record r { status = approved };
        is_row =
            subst (λ (j : Bytes). HasRow e.codec j approved q (record r { status = approved }) left)
              h.own (same-HasRow (decided_tables e input actor q r id raw t h) left refl moved);
        same_hash = refl;
        decision = the_decision e input actor q r id raw t h;
        stored =
            ap (decode_approval e.codec) (
              first_decision input.request_id t.approvals
                (new_approval e.now raw (the_decision e input actor q r id raw t h)) own
                h.undecided)
            ∙ decoded e.codec (new_approval e.now raw (the_decision e input actor q r id raw t h))
                same;
        approves = refl;
        about = refl;
        bound = refl;
        unused =
            one_unused input.request_id t.approvals
              (new_approval e.now raw (the_decision e input actor q r id raw t h)) own h.undecided
              refl;
        executions = refl;
      }

-- Where a request can be approved after the expiry, root's approval starts the execution and leaves
-- the request approved, with a decision that is not used.
pub decide-succeeds :
    (e : CallEnv) (peer : Peer) (input : DecisionRequest) (actor : Requester) (q : ExecutionRequest)
    (r : RequestRow) (id raw : Bytes) (t : Tables)
    → root_requester peer ≡ ok actor
    → (h : Approvable e input actor q r id raw (expire_outstanding e.codec e.now t))
    → e.codec.unmarshal_approval raw
      ≡ some (the_decision e input actor q r id raw (expire_outstanding e.codec e.now t) h)
    → ((decide e peer input approve_text t).starts ≡ true)
      × Approved e.codec input.request_id q r.request_hash
          (expire_outstanding e.codec e.now t)
          (decide e peer input approve_text t).tables
unfolding decide decide_as decide_loaded answer_accept left str_eq
decide-succeeds e peer input actor q r id raw t root h same =
    let t' = expire_outstanding e.codec e.now t in
    let reason = trim_space input.reason in
    let known : decide_as e (ok actor) input approve_text t
        ≡ decide_loaded e actor input approve_text reason (get_from e.codec t' input.request_id)
            t' =
      rw h.reason refl in
    let reply : decide e peer input approve_text t
        ≡ answer_accept e (stored_request r q) approve_text reason
            (the_decision e input actor q r id raw t' h)
            (ok tt, decided_tables e input actor q r id raw t' h) =
      ap (λ a. decide_as e a input approve_text t) root
      ∙ known
      ∙ ap (λ found. decide_loaded e actor input approve_text reason found t')
          (get_from-found e.codec input.request_id waiting q r t' h.row)
      ∙ found_decides e input actor q r id raw t' h in
    (
      ap (λ (a : Reply). a.starts) reply,
      subst (Approved e.codec input.request_id q r.request_hash t')
          (sym (ap (λ (a : Reply). a.tables) reply))
          (left-Approved e input actor q r id raw t' h same),
    )
