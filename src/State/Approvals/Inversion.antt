-- ===== src/State/Approvals/Inversion.antt =====
-- What the transactions of a decision, of a start and of an end did when they committed.
use shudo.Prelude.{
  ℕ, ◌≡◌, refl, ◌⊎◌, inl, inr, true, false, Option, none, some, [], ◌∷◌, ◌++◌, Bytes, arith,
  Bool-cases, if◌then◌else◌, ok, >>=-eq-ok,
}
use shudo.Model.{Status, waiting, executing, Approval}
use shudo.State.Sql.{count_where, exists_where, update_where}
use shudo.State.Tables.{
  Codec, ApprovalRow, ExecutionRow, Tables, of_request, approval_of, execution_of,
}
use shudo.State.Requests.{TxIo, transition}
use shudo.State.Requests.Moves.{Moved, transition-Moved, transaction-cases, transaction-ok}
use shudo.State.Approvals.{
  is_valid_approval, new_approval, insert_approval, decided_status, accept_in, accept_raw,
  accept_approval, new_execution, insert_execution, is_unconsumed, consume, consume_approval,
  is_approved, begin_in, begin_execution, nullable, finished_status, finish_in, finish_execution,
}

pub record Accepted (c : Codec) (now : Bytes) (a : Approval) (t t' : Tables) : Type 0 where
  pub valid : is_valid_approval a ≡ true
  pub raw : Bytes
  pub marshalled : c.marshal_approval a ≡ some raw
  pub undecided : exists_where (approval_of a.request_id) t.approvals ≡ false
  pub known : exists_where (of_request a.request_id) t.requests ≡ true
  pub moved :
      Moved a.request_id
        (decided_status a)
        (some waiting)
        (record t { approvals = t.approvals ++ new_approval now raw a ∷ [] })
        t'

insert_approval-ok :
    (a : ApprovalRow) (t : Tables) {t' : Tables}
    → insert_approval a t ≡ ok t'
    → (exists_where (approval_of a.request_id) t.approvals ≡ false)
      × (exists_where (of_request a.request_id) t.requests ≡ true)
      × (t' ≡ record t { approvals = t.approvals ++ a ∷ [] })
unfolding insert_approval
insert_approval-ok a t h = (ground arith, ground arith, ground arith)

accept_in-Accepted :
    (c : Codec) (now raw : Bytes) (a : Approval) (t : Tables) {t' : Tables}
    → is_valid_approval a ≡ true
    → c.marshal_approval a ≡ some raw
    → accept_in c now raw a t ≡ ok t'
    → Accepted c now a t t'
unfolding accept_in
accept_in-Accepted c now raw a t valid m h =
    let (inserted, p, q) = >>=-eq-ok (insert_approval (new_approval now raw a) t) _ h in
    let (undecided, known, e) = insert_approval-ok (new_approval now raw a) t p in
    record {
      valid = valid;
      raw = raw;
      marshalled = m;
      undecided = undecided;
      known = known;
      moved =
          rw (← e) (transition-Moved c a.request_id (decided_status a) (some waiting) inserted q);
    }

pub accept_approval-cases :
    (c : Codec) (io : TxIo) (now : Bytes) (a : Approval) (t : Tables)
    → ((accept_approval c io now a t).1 ≡ t) ⊎ Accepted c now a t (accept_approval c io now a t).1
unfolding accept_approval
accept_approval-cases c io now a t = elim (Bool-cases (is_valid_approval a)) [
  | inr bad ↦ inl (rw bad)
  | inl valid ↦ rw valid (go (c.marshal_approval a) refl valid)
]
  where
    go :
        (m : Option Bytes)
        → c.marshal_approval a ≡ m
        → is_valid_approval a ≡ true
        → ((accept_raw c io now a m t).1 ≡ t) ⊎ Accepted c now a t (accept_raw c io now a m t).1
    go none e valid = inl refl
    go (some raw) e valid = elim (transaction-cases io (accept_in c now raw a) t) [
      | inl same ↦ inl same
      | inr (t', done, left) ↦ inr (rw left (accept_in-Accepted c now raw a t valid e done))
    ]

pub accept_approval-ok :
    (c : Codec) (io : TxIo) (now : Bytes) (a : Approval) (t : Tables)
    → (accept_approval c io now a t).0 ≡ ok tt
    → Accepted c now a t (accept_approval c io now a t).1
unfolding accept_approval
accept_approval-ok c io now a t h = elim (Bool-cases (is_valid_approval a)) [
  | inr bad ↦ absurd (invalid_fails bad h)
  | inl valid ↦ rw valid (go (c.marshal_approval a) refl valid (rw valid at h))
]
  where
    invalid_fails : is_valid_approval a ≡ false → (accept_approval c io now a t).0 ≡ ok tt → ⊥
    invalid_fails bad g = ground arith

    go :
        (m : Option Bytes)
        → c.marshal_approval a ≡ m
        → is_valid_approval a ≡ true
        → (accept_raw c io now a m t).0 ≡ ok tt
        → Accepted c now a t (accept_raw c io now a m t).1
    go none e valid g = cc
    go (some raw) e valid g =
        accept_in-Accepted c now raw a t valid e (transaction-ok io (accept_in c now raw a) t g)

pub record Begun (c : Codec) (id : Bytes) (expected : Option Status) (now : Bytes) (t t' : Tables)
    : Type 0 where
  pub middle : Tables
  pub moved : Moved id executing expected t middle
  pub not_started : exists_where (execution_of id) t.executions ≡ false
  pub requests : t'.requests ≡ middle.requests
  pub executions : t'.executions ≡ t.executions ++ new_execution id now ∷ []
  pub approved_once : is_approved expected ≡ true → count_where (is_unconsumed id) t.approvals ≡ 1
  pub consumed : is_approved expected ≡ true → t'.approvals ≡ consume id now t.approvals
  pub untouched : is_approved expected ≡ false → t'.approvals ≡ t.approvals

insert_execution-ok :
    (e : ExecutionRow) (t : Tables) {t' : Tables}
    → insert_execution e t ≡ ok t'
    → (exists_where (execution_of e.request_id) t.executions ≡ false)
      × (t' ≡ record t { executions = t.executions ++ e ∷ [] })
unfolding insert_execution
insert_execution-ok e t h = (ground arith, ground arith)

consume_approval-ok :
    (id now : Bytes) (t : Tables) {t' : Tables}
    → consume_approval id now t ≡ ok t'
    → (count_where (is_unconsumed id) t.approvals ≡ 1)
      × (t' ≡ record t { approvals = consume id now t.approvals })
unfolding consume_approval
consume_approval-ok id now t h = (ground arith, ground arith)

begin_end :
    (c : Codec) (id : Bytes) (expected : Option Status) (now : Bytes) (t middle started : Tables)
    {t' : Tables}
    → Moved id executing expected t middle
    → (exists_where (execution_of id) middle.executions ≡ false)
      × (started ≡ record middle { executions = middle.executions ++ new_execution id now ∷ [] })
    → (if is_approved expected then consume_approval id now started else ok started) ≡ ok t'
    → Begun c id expected now t t'
begin_end c id expected now t middle started m (fresh, e) u =
    elim (Bool-cases (is_approved expected)) [
      | inl yes' ↦
          let (once, consumed) = consume_approval-ok id now started (rw yes' at u) in
          let w = m.written in
          record {
            middle = middle;
            moved = m;
            not_started = ground arith;
            requests = ground arith;
            executions = ground arith;
            approved_once = λ _. ground arith;
            consumed = λ _. ground arith;
            untouched = λ no'. cc;
          }
      | inr no' ↦
          let w = m.written in
          record {
            middle = middle;
            moved = m;
            not_started = ground arith;
            requests = ground arith;
            executions = ground arith;
            approved_once = λ yes'. cc;
            consumed = λ yes'. cc;
            untouched = λ _. ground arith;
          }
    ]

begin_in-Begun :
    (c : Codec) (id : Bytes) (expected : Option Status) (now : Bytes) (t : Tables) {t' : Tables}
    → begin_in c id expected now t ≡ ok t'
    → Begun c id expected now t t'
unfolding begin_in
begin_in-Begun c id expected now t h =
    let (moved, p, q) = >>=-eq-ok (transition c id executing expected t) _ h in
    let (started, r, u) = >>=-eq-ok (insert_execution (new_execution id now) moved) _ q in
    begin_end c id expected now t moved started (transition-Moved c id executing expected t p)
      (insert_execution-ok (new_execution id now) moved r) u

pub begin_execution-cases :
    (c : Codec) (io : TxIo) (id : Bytes) (expected : Option Status) (now : Bytes) (t : Tables)
    → ((begin_execution c io id expected now t).1 ≡ t)
      ⊎ Begun c id expected now t (begin_execution c io id expected now t).1
unfolding begin_execution
begin_execution-cases c io id expected now t =
    elim (transaction-cases io (begin_in c id expected now) t) [
      | inl same ↦ inl same
      | inr (t', done, left) ↦ inr (rw left (begin_in-Begun c id expected now t done))
    ]

pub begin_execution-ok :
    (c : Codec) (io : TxIo) (id : Bytes) (expected : Option Status) (now : Bytes) (t : Tables)
    → (begin_execution c io id expected now t).0 ≡ ok tt
    → Begun c id expected now t (begin_execution c io id expected now t).1
unfolding begin_execution
begin_execution-ok c io id expected now t h =
    begin_in-Begun c id expected now t (transaction-ok io (begin_in c id expected now) t h)

-- `signal` is the empty text where no signal ended the command.
pub record Finished (c : Codec) (id : Bytes) (code : Option ℕ) (signal now : Bytes) (t t' : Tables)
    : Type 0 where
  pub middle : Tables
  pub moved : Moved id (finished_status code) (some executing) t middle
  pub requests : t'.requests ≡ middle.requests
  pub approvals : t'.approvals ≡ t.approvals
  pub executions :
      t'.executions
      ≡ update_where
          (execution_of id)
          (λ e. record e { finished_at = some now; exit_code = code; signal = nullable signal })
          t.executions

finish_in-Finished :
    (c : Codec) (id : Bytes) (code : Option ℕ) (signal now : Bytes) (t : Tables) {t' : Tables}
    → finish_in c id code signal now t ≡ ok t'
    → Finished c id code signal now t t'
unfolding finish_in
finish_in-Finished c id code signal now t h =
    let (middle, p, q) =
      >>=-eq-ok (transition c id (finished_status code) (some executing) t) _ h in
    let m = transition-Moved c id (finished_status code) (some executing) t p in
    let w = m.written in
    record {
      middle = middle;
      moved = m;
      requests = ground arith;
      approvals = ground arith;
      executions = ground arith;
    }

pub finish_execution-cases :
    (c : Codec) (io : TxIo) (id : Bytes) (code : Option ℕ) (signal now : Bytes) (t : Tables)
    → ((finish_execution c io id code signal now t).1 ≡ t)
      ⊎ Finished c id code signal now t (finish_execution c io id code signal now t).1
unfolding finish_execution
finish_execution-cases c io id code signal now t =
    elim (transaction-cases io (finish_in c id code signal now) t) [
      | inl same ↦ inl same
      | inr (t', done, left) ↦ inr (rw left (finish_in-Finished c id code signal now t done))
    ]
