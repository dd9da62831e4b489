-- ===== src/State/History/Once.antt =====
-- Histories: a used decision stays used, so a request starts on its approval at most once, and is
-- decided at most once.
use shudo.Prelude.{
  ◌≡◌, ◌≢◌, refl, ap, ◌∙◌, true, false, some, List, [], ◌∷◌, ◌++◌, Bytes, arith, Bool-cases, inl,
  inr, str_eq, str_eq_iff, str_eq_refl, ok, &&-true, true_and_false,
}
use shudo.Model.{Approval, approved, status_eq}
use shudo.State.Sql.{
  exists_where, count_where, exists_where-update_where, exists_where-append, count_where-append,
  count_where-update_none, count_where-update_all, exists_where-of_count,
}
use shudo.State.Tables.{Codec, ApprovalRow, Tables, approval_of}
use shudo.State.Requests.{TxIo}
use shudo.State.Approvals.{
  is_unconsumed, is_approved, new_approval, accept_approval, begin_execution,
}
use shudo.State.Approvals.Inversion.{accept_approval-ok, Begun, begin_execution-ok}
use shudo.State.History.{StoreOp, apply_op, run_ops}
use shudo.State.History.Decisions.{Decided, same, added, used, apply_op-Decided}

-- The request is decided, and no decision of it is left to start an execution.
pub record IsUsed (id : Bytes) (approvals : List ApprovalRow) : Type 0 where
  pub decided : exists_where (approval_of id) approvals ≡ true
  pub none_left : count_where (is_unconsumed id) approvals ≡ 0

consumed_false :
    (id now : Bytes) (a : ApprovalRow)
    → is_unconsumed id (record a { consumed_at = some now }) ≡ false
unfolding is_unconsumed
consumed_false id now a = ground arith

unconsumed_of : (id : Bytes) (a : ApprovalRow) → is_unconsumed id a ≡ true → approval_of id a ≡ true
unfolding is_unconsumed
unconsumed_of id a h = (&&-true _ _ h).0

pub exists_where-Decided :
    (id : Bytes) {old new : List ApprovalRow}
    → Decided old new
    → exists_where (approval_of id) old ≡ true
    → exists_where (approval_of id) new ≡ true
exists_where-Decided id same h = h
exists_where-Decided id {old} (added a undecided fresh e) h =
    rw (e, exists_where-append (approval_of id) old (a ∷ []), h)
exists_where-Decided id {old} (used j now e) h = rw e (
    exists_where-update_where (approval_of id) (is_unconsumed j)
      (λ a. record a { consumed_at = some now }) (λ a. refl) old
    ∙ h)

-- The new decision is about another request.
added_none :
    (id : Bytes) (old : List ApprovalRow) (a : ApprovalRow)
    → exists_where (approval_of id) old ≡ true
    → exists_where (approval_of a.request_id) old ≡ false
    → count_where (is_unconsumed id) (a ∷ []) ≡ 0
unfolding count_where is_unconsumed
added_none id old a h u = elim (Bool-cases (str_eq a.request_id id)) [
  | inl e ↦ true_and_false h (rw ((str_eq_iff a.request_id id).0 e) at u)
  | inr ne ↦ rw ne
]

pub Decided-IsUsed :
    (id : Bytes) {old new : List ApprovalRow} → Decided old new → IsUsed id old → IsUsed id new
Decided-IsUsed id same h = h
Decided-IsUsed id {old} (added a undecided fresh e) h = record {
  decided = exists_where-Decided id (added a undecided fresh e) h.decided;
  none_left =
      rw (e, count_where-append (is_unconsumed id) old (a ∷ []))
        (omega (arith, h.none_left, added_none id old a h.decided undecided));
}
Decided-IsUsed id {old} (used j now e) h = record {
  decided = exists_where-Decided id (used j now e) h.decided;
  none_left = rw e (
      count_where-update_none (is_unconsumed id) (is_unconsumed j)
        (λ a. record a { consumed_at = some now })
        (λ a t. true_and_false t (consumed_false id now a)) old h.none_left);
}

pub run_ops-IsUsed :
    (c : Codec) (id : Bytes) (ops : List StoreOp) (t : Tables)
    → IsUsed id t.approvals
    → IsUsed id (run_ops c ops t).approvals
unfolding run_ops
run_ops-IsUsed c id [] t h = h
run_ops-IsUsed c id (op ∷ ops) t h =
    run_ops-IsUsed c id ops (apply_op c op t) (Decided-IsUsed id (apply_op-Decided c op t) h)

pub run_ops-decided :
    (c : Codec) (id : Bytes) (ops : List StoreOp) (t : Tables)
    → exists_where (approval_of id) t.approvals ≡ true
    → exists_where (approval_of id) (run_ops c ops t).approvals ≡ true
unfolding run_ops
run_ops-decided c id [] t h = h
run_ops-decided c id (op ∷ ops) t h =
    run_ops-decided c id ops (apply_op c op t) (exists_where-Decided id (apply_op-Decided c op t) h)

pub is_approved-approved : is_approved (some approved) ≡ true
unfolding is_approved status_eq
is_approved-approved = refl

-- A start on an approval leaves the approval used.
pub Begun-IsUsed :
    {c : Codec} {id now : Bytes} (t t' : Tables)
    → Begun c id (some approved) now t t'
    → IsUsed id t'.approvals
Begun-IsUsed {c} {id} {now} t t' b =
    let e = b.consumed is_approved-approved in
    let one = b.approved_once is_approved-approved in
    record {
      decided = rw e (
          exists_where-update_where (approval_of id) (is_unconsumed id)
            (λ a. record a { consumed_at = some now }) (λ a. refl) t.approvals
          ∙ there t.approvals one);
      none_left = rw e (
          count_where-update_all (is_unconsumed id) (is_unconsumed id)
            (λ a. record a { consumed_at = some now }) (consumed_false id now) (λ a h. h)
            t.approvals);
    }
  where
    there :
        (approvals : List ApprovalRow)
        → count_where (is_unconsumed id) approvals ≡ 1
        → exists_where (approval_of id) approvals ≡ true
    there approvals one = elim (Bool-cases (exists_where (approval_of id) approvals)) [
      | inl h ↦ h
      | inr h ↦ absurd (
          omega (
            arith,
            one,
            exists_where-of_count (is_unconsumed id) (approval_of id) (unconsumed_of id) approvals
                h,
          ))
    ]

-- After `BeginExecution` has started a request on its approval, no later `BeginExecution` from
-- `Approved` succeeds for it, whatever operations of the store run in between.
pub begin_execution-once :
    (c : Codec) (io io' : TxIo) (id now now' : Bytes) (ops : List StoreOp) (t : Tables)
    → (begin_execution c io id (some approved) now t).0 ≡ ok tt
    → (begin_execution c io' id
        (some approved)
        now'
        (run_ops c ops (begin_execution c io id (some approved) now t).1)).0
      ≢ ok tt
begin_execution-once c io io' id now now' ops t first again =
    let t' = (begin_execution c io id (some approved) now t).1 in
    let after = run_ops c ops t' in
    let u =
      run_ops-IsUsed c id ops t'
        (Begun-IsUsed t t' (begin_execution-ok c io id (some approved) now t first)) in
    let b = begin_execution-ok c io' id (some approved) now' after again in
    absurd (omega (arith, u.none_left, b.approved_once is_approved-approved))

newly_decided :
    (approvals : List ApprovalRow) (a : ApprovalRow)
    → exists_where (approval_of a.request_id) (approvals ++ a ∷ []) ≡ true
unfolding exists_where
newly_decided approvals a = rw exists_where-append (ground (arith, str_eq_refl a.request_id))

-- After a decision about a request is accepted, no later decision about it is, whatever operations
-- of the store run in between.
pub accept_approval-once :
    (c : Codec) (io io' : TxIo) (now now' : Bytes) (a b : Approval) (ops : List StoreOp)
    (t : Tables)
    → b.request_id ≡ a.request_id
    → (accept_approval c io now a t).0 ≡ ok tt
    → (accept_approval c io' now' b (run_ops c ops (accept_approval c io now a t).1)).0 ≢ ok tt
accept_approval-once c io io' now now' a b ops t e first again =
    let t' = (accept_approval c io now a t).1 in
    let after = run_ops c ops t' in
    let p = accept_approval-ok c io now a t first in
    let q = accept_approval-ok c io' now' b after again in
    true_and_false
      (run_ops-decided c a.request_id ops t' (
        ap (exists_where (approval_of a.request_id))
          (ap (λ (u : Tables). u.approvals) p.moved.written)
        ∙ newly_decided t.approvals (new_approval now p.raw a)))
      (rw e at q.undecided)
