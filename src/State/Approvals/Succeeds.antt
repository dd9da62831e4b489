-- ===== src/State/Approvals/Succeeds.antt =====
-- When a decision is accepted, and when a start on it succeeds.
use shudo.Prelude.{
  ◌≡◌, refl, ◌∙◌, true, false, some, [], ◌∷◌, ◌++◌, Bytes, if◌then◌else◌, Result, ok, ◌>>=◌, str_eq,
  sym,
}
use mathlib.Core.Path.{subst}
use shudo.Model.{Status, waiting, approved, executing, ExecutionRequest, Approval, status_eq}
use shudo.State.Sql.{exists_where, count_where, select_first-exists, exists_where-update_where}
use shudo.State.Tables.{
  Codec, RequestRow, Tables, StoreError, of_request, approval_of, execution_of,
}
use shudo.State.Requests.{TxIo, can_move, transition, move_row, has_status}
use shudo.State.Requests.Succeeds.{HasRow, transition-ok, committed}
use shudo.State.Approvals.{
  is_valid_approval, new_approval, insert_approval, decided_status, accept_in, accept_raw,
  accept_approval, new_execution, insert_execution, is_unconsumed, consume_approval, is_approved,
  begin_in, begin_execution, consume,
}

bind-ok :
    {A B : Type 0} (call : Result StoreError A) (next : A → Result StoreError B) (x : A) (y : B)
    → call ≡ ok x
    → next x ≡ ok y
    → (call >>= next) ≡ ok y
bind-ok call next x y e f = rw e f

-- The tables with a decision that is not used.
abbrev pub with_decision : Bytes → Bytes → Approval → Tables → Tables
with_decision now raw a t = record t { approvals = t.approvals ++ new_approval now raw a ∷ [] }

module _ (c : Codec) (io : TxIo) (now : Bytes) (q : ExecutionRequest) (r : RequestRow) (t : Tables)
    (begins : io.begins ≡ true) (commits : io.commits ≡ true) where
  inserts-approval :
      (raw : Bytes) (a : Approval)
      → exists_where (approval_of a.request_id) t.approvals ≡ false
      → exists_where (λ b. str_eq b.approval_id a.approval_id) t.approvals ≡ false
      → exists_where (of_request a.request_id) t.requests ≡ true
      → insert_approval (new_approval now raw a) t ≡ ok (with_decision now raw a t)
  unfolding insert_approval
  inserts-approval raw a undecided fresh known = rw (fresh, undecided, known) refl

  waiting-approved : can_move waiting approved ≡ true
  unfolding can_move status_eq
  waiting-approved = refl

  approved-executing : can_move approved executing ≡ true
  unfolding can_move status_eq
  approved-executing = refl

  -- A valid approval of a waiting request that has none, under a new identifier.
  pub accept_approval-succeeds :
      (a : Approval) (raw : Bytes)
      → HasRow c a.request_id waiting q r t
      → is_valid_approval a ≡ true
      → c.marshal_approval a ≡ some raw
      → exists_where (approval_of a.request_id) t.approvals ≡ false
      → exists_where (λ b. str_eq b.approval_id a.approval_id) t.approvals ≡ false
      → decided_status a ≡ approved
      → accept_approval c io now a t
        ≡ (ok tt, move_row a.request_id approved waiting (with_decision now raw a t))
  unfolding accept_approval accept_raw can_move
  accept_approval-succeeds a raw h valid m undecided fresh yes' =
      rw (accept_approval, valid, m)
        (committed io (accept_in c now raw a) t _ begins commits
          (inserted a raw h undecided fresh yes'))
    where
      inserted :
          (a : Approval) (raw : Bytes)
          → HasRow c a.request_id waiting q r t
          → exists_where (approval_of a.request_id) t.approvals ≡ false
          → exists_where (λ b. str_eq b.approval_id a.approval_id) t.approvals ≡ false
          → decided_status a ≡ approved
          → accept_in c now raw a t
            ≡ ok (move_row a.request_id approved waiting (with_decision now raw a t))
      inserted a raw h undecided fresh yes' =
          let t1 = with_decision now raw a t in
          let last = move_row a.request_id approved waiting t1 in
          bind-ok (insert_approval (new_approval now raw a) t)
            (transition c a.request_id (decided_status a) (some waiting)) t1 last
            (inserts-approval raw a undecided fresh
              (select_first-exists (of_request a.request_id) t.requests r h.found))
            (subst (λ (s : Status). transition c a.request_id s (some waiting) t1 ≡ ok last)
              (sym yes')
              (transition-ok c a.request_id waiting q r t1
                (record {
                  found = h.found;
                  single = h.single;
                  status = h.status;
                  content = h.content;
                })
                approved waiting-approved))

  inserts-execution :
      (id : Bytes) (t1 : Tables)
      → exists_where (execution_of id) t1.executions ≡ false
      → exists_where (of_request id) t1.requests ≡ true
      → insert_execution (new_execution id now) t1
        ≡ ok (record t1 { executions = t1.executions ++ new_execution id now ∷ [] })
  unfolding insert_execution
  inserts-execution id t1 fresh known = rw (fresh, known) refl

  consumes :
      (id : Bytes) (t2 : Tables)
      → count_where (is_unconsumed id) t2.approvals ≡ 1
      → (if is_approved (some approved) then consume_approval id now t2 else ok t2)
        ≡ ok (record t2 { approvals = consume id now t2.approvals })
  unfolding consume_approval is_approved status_eq
  consumes id t2 one = rw one refl

  -- The start of an approved request that has one decision which is not used.
  pub begin_execution-succeeds :
      (id : Bytes)
      → HasRow c id approved q r t
      → exists_where (execution_of id) t.executions ≡ false
      → count_where (is_unconsumed id) t.approvals ≡ 1
      → (t' : Tables) × (begin_execution c io id (some approved) now t ≡ (ok tt, t'))
  unfolding begin_execution begin_in
  begin_execution-succeeds id h fresh one =
      let t1 = move_row id executing approved t in
      let t2 = record t1 { executions = t.executions ++ new_execution id now ∷ [] } in
      let t3 = record t2 { approvals = consume id now t.approvals } in
      let known =
        exists_where-update_where (of_request id) (has_status id approved)
          (λ x. record x { status = executing }) (λ x. refl) t.requests
        ∙ select_first-exists (of_request id) t.requests r h.found in
      (
        t3,
        committed io (begin_in c id (some approved) now) t t3 begins commits (
            bind-ok (transition c id executing (some approved) t) _ t1 t3
              (transition-ok c id approved q r t h executing approved-executing)
              (bind-ok (insert_execution (new_execution id now) t1) _ t2 t3
                (inserts-execution id t1 fresh known) (consumes id t2 one))),
      )
