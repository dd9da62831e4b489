-- ===== src/State/Life/Gates.antt =====
-- The two gated operations: a decision casts the ballot of its request, and a start spends it.
use shudo.Prelude.{
  ◌≡◌, refl, ap, ◌∙◌, ◌⊎◌, inl, inr, true, false, Option, none, some, [], ◌∷◌, ◌++◌, Bytes, arith,
  Bool-cases, &&-true, str_eq, str_eq_iff,
}
use mathlib.Core.Option
use mathlib.Core.Path.{subst}
use shudo.Model.{Status, Approval, waiting, approved, denied, executing, status_eq_iff}
use shudo.State.Sql.{update_where, select_first-passes}
use shudo.State.Tables.{Codec, RequestRow, Tables, of_request, row_of}
use shudo.State.Requests.{unexpected, has_status}
use shudo.State.Approvals.{is_approved, decided_status, new_approval}
use shudo.State.Approvals.Inversion.{Accepted, Begun}
use shudo.State.Life.{Step, idle, decided, begun, brief, ballot_of, view}
use shudo.State.Life.Views.{view_eq, set_status, view-hit, view-miss}
use shudo.State.Life.Ballots.{
  ballot_of-added, ballot_of-added_other, ballot_of-used, ballot_of-used_other,
}

-- A move whose row has the status that it found.
has_status-row :
    (j : Bytes) (current : Status) (r : RequestRow) (t : Tables)
    → row_of j t ≡ some r
    → r.status ≡ current
    → has_status j current r ≡ true
has_status-row j current r t found e =
    let own = select_first-passes (of_request j) t.requests r found in
    let same = (status_eq_iff r.status current).1 e in ground arith

expected-status :
    (expected : Option Status) (s current : Status)
    → expected ≡ some s
    → unexpected expected current ≡ false
    → current ≡ s
unfolding unexpected
expected-status expected s current e h = (status_eq_iff current s).0 (ground arith)

decided_status-cases : (a : Approval) → (decided_status a ≡ approved) ⊎ (decided_status a ≡ denied)
unfolding decided_status
decided_status-cases a = ground arith

-- A decision on a waiting request, in tables where the decision is there.
pub accepted-Step :
    (c : Codec) (now : Bytes) (a : Approval) (id : Bytes) (t t' : Tables)
    → Accepted c now a t t'
    → Step (view id t) (view id t')
unfolding view
accepted-Step c now a id t t' p =
    let row = new_approval now p.raw a in
    let middle = record t { approvals = t.approvals ++ row ∷ [] } in
    let m = p.moved in
    let next = decided_status a in
    let rows : t'.requests
        ≡ update_where (has_status a.request_id m.current) (set_status next) t.requests =
      ap (λ (v : Tables). v.requests) m.written in
    let votes : t'.approvals ≡ t.approvals ++ row ∷ [] =
      ap (λ (v : Tables). v.approvals) m.written in
    elim (Bool-cases (str_eq a.request_id id)) [
      | inr other ↦ idle (
          view_eq
            (view-miss id a.request_id (has_status a.request_id m.current) next t t' rows other
              (λ r h. (&&-true (of_request a.request_id r) _ h).0))
            (ap (ballot_of id) votes ∙ ballot_of-added_other id t.approvals row other))
      | inl same ↦
          subst (λ (j : Bytes). Step (view j t) (view j t')) ((str_eq_iff a.request_id id).0 same)
            (let (before, later) = ballot_of-added t.approvals row p.undecided refl in
              decided (brief m.row) next (view_eq (ap (Option.map brief) m.found) before)
                (m.at_current ∙ expected-status (some waiting) waiting m.current refl m.as_expected)
                (decided_status-cases a)
                (view_eq
                  (view-hit a.request_id (has_status a.request_id m.current) next m.row t t' rows
                    m.found (has_status-row a.request_id m.current m.row t m.found m.at_current))
                  (ap (ballot_of a.request_id) votes ∙ later)))
    ]

is_approved-some :
    (expected : Option Status) → is_approved expected ≡ true → expected ≡ some approved
unfolding is_approved
is_approved-some none h = cc
is_approved-some (some s) h = ap some ((status_eq_iff s approved).0 h)

-- A start that uses the decision.
pub begun-Step :
    (c : Codec) (j : Bytes) (expected : Option Status) (now id : Bytes) (t t' : Tables)
    → is_approved expected ≡ true
    → Begun c j expected now t t'
    → Step (view id t) (view id t')
unfolding view
begun-Step c j expected now id t t' on_approval p =
    let m = p.moved in
    let rows : t'.requests
        ≡ update_where (has_status j m.current) (set_status executing) t.requests =
      p.requests ∙ ap (λ (v : Tables). v.requests) m.written in
    let votes = p.consumed on_approval in
    elim (Bool-cases (str_eq j id)) [
      | inr other ↦ idle (
          view_eq
            (view-miss id j (has_status j m.current) executing t t' rows other
              (λ r h. (&&-true (of_request j r) _ h).0))
            (ap (ballot_of id) votes ∙ ballot_of-used_other id j now t.approvals other))
      | inl same ↦
          subst (λ (i : Bytes). Step (view i t) (view i t')) ((str_eq_iff j id).0 same)
            (let (before, later) = ballot_of-used j now t.approvals (p.approved_once on_approval) in
              begun (brief m.row) (view_eq (ap (Option.map brief) m.found) before)
                (m.at_current
                  ∙ expected-status expected approved m.current
                      (is_approved-some expected on_approval) m.as_expected)
                (view_eq
                  (view-hit j (has_status j m.current) executing m.row t t' rows m.found
                    (has_status-row j m.current m.row t m.found m.at_current))
                  (ap (ballot_of j) votes ∙ later)))
    ]
