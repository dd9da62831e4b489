-- ===== src/Cli/Reconcile/Existing.antt =====
-- What the command reads from a record is what the daemon answers to a repeated decision.
use shudo.Prelude.{
  ◌≡◌, refl, sym, ap, ◌∙◌, inl, inr, true, false, Option, none, some, Bytes, arith, str_eq,
  str_eq_iff, is_empty, Result, ok, err, Bool-cases,
}
use shudo.State.Tables.{Codec, Tables, StoredRequest, StoreError}
use shudo.State.Approvals.{approval_for}
use shudo.Model.{Approval}
use shudo.Daemon.Authority.{approval_actor}
use shudo.Daemon.Decide.{
  DecisionRequest, DecisionResponse, is_approve, next_status, existing_decision, check_existing,
}
use shudo.Daemon.Records.{undecided_record, with_decision, request_record}
use shudo.Cli.Reconcile.{reconcile_record, decision_response_from_record}

-- The request is the one that the caller confirmed.
pub record Confirms (item : StoredRequest) (request : DecisionRequest) (decision : Bytes)
    : Type 0 where
  pub same_request : item.request.request_id ≡ request.request_id
  pub same_hash : is_approve decision ≡ true → item.request_hash ≡ request.request_hash
  pub some_hash : is_approve decision ≡ true → is_empty request.request_hash ≡ false

-- What the daemon answers from a stored decision.
record Answered (item : StoredRequest) (decision : Bytes) (a : Approval) (r : DecisionResponse)
    : Type 0 where
  same : a.decision ≡ decision
  answer : r ≡ record {
    request_id = item.request.request_id;
    approval_id = a.approval_id;
    status = next_status decision;
    decided_by = approval_actor a;
  }

check_existing-Answered :
    (item : StoredRequest) (decision : Bytes) (a : Approval) (r : DecisionResponse)
    → check_existing item decision (ok (some a)) ≡ ok (some r)
    → Answered item decision a r
unfolding check_existing
check_existing-Answered item decision a r h = elim (Bool-cases (str_eq a.decision decision)) [
  | inl same ↦ record { same = (str_eq_iff a.decision decision).0 same; answer = ground arith }
  | inr other ↦ absurd (ground arith)
]

reconcile_record-ok :
    (quote : Bytes → Bytes) (item : StoredRequest) (request : DecisionRequest) (decision : Bytes)
    (a : Approval)
    → Confirms item request decision
    → a.decision ≡ decision
    → is_empty decision ≡ false
    → is_empty a.approval_id ≡ false
    → reconcile_record (with_decision (ok (some a)) (undecided_record quote item)) request decision
      ≡ ok (record {
        request_id = item.request.request_id;
        approval_id = a.approval_id;
        status = next_status decision;
        decided_by = approval_actor a;
      })
unfolding reconcile_record with_decision undecided_record
reconcile_record-ok quote item request decision a c same named numbered =
    let id : str_eq item.request.request_id request.request_id ≡ true =
      (str_eq_iff item.request.request_id request.request_id).1 c.same_request in
    let said : is_empty a.decision ≡ false = ap is_empty same ∙ named in
    let text : str_eq a.decision decision ≡ true = (str_eq_iff a.decision decision).1 same in
    elim (Bool-cases (is_approve decision)) [
      | inl approves ↦
          let hash : str_eq item.request_hash request.request_hash ≡ true =
            (str_eq_iff item.request_hash request.request_hash).1 (c.same_hash approves) in
          rw (id, said, text, numbered, approves, hash, c.some_hash approves) refl
      | inr denies ↦ rw (id, said, text, numbered, denies) refl
    ]

check_existing-record :
    (quote : Bytes → Bytes) (item : StoredRequest) (request : DecisionRequest) (decision : Bytes)
    (found : Result StoreError (Option Approval)) (r : DecisionResponse)
    → Confirms item request decision
    → is_empty decision ≡ false
    → is_empty r.approval_id ≡ false
    → check_existing item decision found ≡ ok (some r)
    → reconcile_record (with_decision found (undecided_record quote item)) request decision ≡ ok r
unfolding check_existing
check_existing-record quote item request decision (err e) r c d i h = cc
check_existing-record quote item request decision (ok none) r c d i h = cc
check_existing-record quote item request decision (ok (some a)) r c d i h =
    let b = check_existing-Answered item decision a r h in
    let numbered : is_empty a.approval_id ≡ false =
      sym (ap (λ (x : DecisionResponse). is_empty x.approval_id) b.answer) ∙ i in
    reconcile_record-ok quote item request decision a c b.same d numbered ∙ ap ok (sym b.answer)

-- Where the daemon would answer a repeated decision with a response, the command reads the same
-- response from the record of the request, if the request and, for an approval, the hash, which is
-- not empty, are those that were confirmed, and neither the decision nor the approval's identifier is
-- empty.
pub existing_decision-reconciled :
    (quote : Bytes → Bytes) (c : Codec) (t : Tables) (item : StoredRequest)
    (request : DecisionRequest) (decision : Bytes) (r : DecisionResponse)
    → Confirms item request decision
    → is_empty decision ≡ false
    → is_empty r.approval_id ≡ false
    → existing_decision c item decision t ≡ ok (some r)
    → decision_response_from_record (some (request_record quote c t item)) request decision ≡ ok r
unfolding existing_decision decision_response_from_record request_record
existing_decision-reconciled quote c t item request decision r =
    check_existing-record quote item request decision (approval_for c t item.request.request_id) r
