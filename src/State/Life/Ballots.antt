-- ===== src/State/Life/Ballots.antt =====
-- How the ballot of a request changes with the table of decisions.
use shudo.Prelude.{
  ◌≡◌, refl, inl, inr, Bool, true, false, none, some, List, [], ◌∷◌, ◌++◌, Bytes, arith, Bool-cases,
  str_eq, str_eq_iff, str_eq_refl, &&-true,
}
use shudo.State.Sql.{
  exists_where, count_where, update_where, exists_where-append, count_where-append,
  exists_where-update_where, count_where-update_all, exists_where-of_count,
}
use shudo.State.Tables.{ApprovalRow, approval_of}
use shudo.State.Approvals.{is_unconsumed, consume}
use shudo.State.Life.{blank, cast, spent, ballot_of}

module _ {ℓ} {R : Type ℓ} (p q : R → Bool) (f : R → R) where
  -- An update that keeps the test `p` of the rows that it hits.
  count_where-update_hit :
      ((r : R) → q r ≡ true → p (f r) ≡ p r)
      → (rows : List R) → count_where p (update_where q f rows) ≡ count_where p rows
  unfolding count_where update_where
  count_where-update_hit keep [] = refl
  count_where-update_hit keep (r ∷ rows) = elim (Bool-cases (q r)) [
    | inl h ↦ rw (h, keep r h, count_where-update_hit keep rows) refl
    | inr h ↦ rw (h, count_where-update_hit keep rows) refl
  ]

unconsumed-consumed :
    (id now : Bytes) (a : ApprovalRow)
    → is_unconsumed id (record a { consumed_at = some now }) ≡ false
unfolding is_unconsumed
unconsumed-consumed id now a = ground arith

pub unconsumed-approval_of :
    (id : Bytes) (a : ApprovalRow) → is_unconsumed id a ≡ true → approval_of id a ≡ true
unfolding is_unconsumed
unconsumed-approval_of id a h = (&&-true _ _ h).0

-- A decision that is not used, added for a request that had none.
pub ballot_of-added :
    (old : List ApprovalRow) (a : ApprovalRow)
    → exists_where (approval_of a.request_id) old ≡ false
    → a.consumed_at ≡ none
    → (ballot_of a.request_id old ≡ blank) × (ballot_of a.request_id (old ++ a ∷ []) ≡ cast)
unfolding ballot_of exists_where count_where is_unconsumed
ballot_of-added old a fresh unused =
    let none_before =
      exists_where-of_count (is_unconsumed a.request_id) (approval_of a.request_id)
        (unconsumed-approval_of a.request_id) old fresh in
    (
      rw fresh refl,
      rw
          (
            exists_where-append (approval_of a.request_id) old (a ∷ []),
            count_where-append (is_unconsumed a.request_id) old (a ∷ []),
            fresh,
            str_eq_refl a.request_id,
            unused,
            none_before,
          )
          refl,
    )

pub ballot_of-added_other :
    (id : Bytes) (old : List ApprovalRow) (a : ApprovalRow)
    → str_eq a.request_id id ≡ false
    → ballot_of id (old ++ a ∷ []) ≡ ballot_of id old
unfolding ballot_of exists_where count_where is_unconsumed
ballot_of-added_other id old a other =
    let e = exists_where-append (approval_of id) old (a ∷ []) in
    let n = count_where-append (is_unconsumed id) old (a ∷ []) in ground arith

exists_where-counted :
    (id : Bytes) (old : List ApprovalRow)
    → count_where (is_unconsumed id) old ≡ 1
    → exists_where (approval_of id) old ≡ true
exists_where-counted id old once = elim (Bool-cases (exists_where (approval_of id) old)) [
  | inl e ↦ e
  | inr e ↦
      let none_there =
        exists_where-of_count (is_unconsumed id) (approval_of id) (unconsumed-approval_of id) old
          e in
      absurd (omega arith)
]

-- Using the decisions of another request.
other-unconsumed :
    (id j now : Bytes) (a : ApprovalRow)
    → str_eq j id ≡ false
    → is_unconsumed j a ≡ true
    → is_unconsumed id (record a { consumed_at = some now }) ≡ is_unconsumed id a
unfolding is_unconsumed
other-unconsumed id j now a other h =
    let e = (str_eq_iff a.request_id j).0 (&&-true _ _ h).0 in
    let ne : str_eq a.request_id id ≡ false = rw e other in ground arith

-- The one decision that is not used is used.
pub ballot_of-used :
    (id now : Bytes) (old : List ApprovalRow)
    → count_where (is_unconsumed id) old ≡ 1
    → (ballot_of id old ≡ cast) × (ballot_of id (consume id now old) ≡ spent)
unfolding ballot_of
ballot_of-used id now old once =
    let there = exists_where-counted id old once in
    let none_left =
      count_where-update_all (is_unconsumed id) (is_unconsumed id)
        (λ a. record a { consumed_at = some now }) (unconsumed-consumed id now) (λ a h. h) old in
    let kept =
      exists_where-update_where (approval_of id) (is_unconsumed id)
        (λ a. record a { consumed_at = some now }) (λ a. refl) old in
    (rw (there, once) refl, rw (kept, none_left, there) refl)

pub ballot_of-used_other :
    (id j now : Bytes) (old : List ApprovalRow)
    → str_eq j id ≡ false
    → ballot_of id (consume j now old) ≡ ballot_of id old
unfolding ballot_of
ballot_of-used_other id j now old other =
    let kept =
      exists_where-update_where (approval_of id) (is_unconsumed j)
        (λ a. record a { consumed_at = some now }) (λ a. refl) old in
    let count =
      count_where-update_hit (is_unconsumed id) (is_unconsumed j)
        (λ a. record a { consumed_at = some now }) (λ a h. other-unconsumed id j now a other h)
        old in
    rw (kept, count) refl
