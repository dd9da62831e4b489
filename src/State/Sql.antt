-- ===== src/State/Sql.antt =====
-- The SQL statements of internal/state/state.go over one table: the rows in the order of insertion.
use shudo.Prelude.{
  ℕ, suc, ◌+◌, ◌≡◌, refl, Bool, true, false, Option, none, some, List, [], ◌∷◌, ◌++◌, arith,
  if◌then◌else◌, Bool-cases, inl, inr, str_lt, Bytes, leb,
}
use mathlib.Core.Option

module _ {ℓ} {R : Type ℓ} where
  -- `SELECT ... WHERE p` read by `QueryRow`: the first row
  unfoldable pub select_first : (R → Bool) → List R → Option R
  select_first p [] = none
  select_first p (r ∷ rows) = if p r then some r else select_first p rows

  -- `SELECT ... WHERE p`
  unfoldable pub select_where : (R → Bool) → List R → List R
  select_where p [] = []
  select_where p (r ∷ rows) = let rest = select_where p rows in if p r then r ∷ rest else rest

  -- `SELECT COUNT(*) ... WHERE p`, and the rows that an `UPDATE ... WHERE p` affects
  unfoldable pub count_where : (R → Bool) → List R → ℕ
  count_where p [] = 0
  count_where p (r ∷ rows) = let n = count_where p rows in if p r then suc n else n

  -- `EXISTS (SELECT 1 ... WHERE p)`, the test of a key and of a foreign key
  unfoldable pub exists_where : (R → Bool) → List R → Bool
  exists_where p [] = false
  exists_where p (r ∷ rows) = if p r then true else exists_where p rows

  -- `UPDATE ... SET f WHERE p`
  unfoldable pub update_where : (R → Bool) → (R → R) → List R → List R
  update_where p f [] = []
  update_where p f (r ∷ rows) = (if p r then f r else r) ∷ update_where p f rows

  -- `DELETE ... WHERE p`
  unfoldable pub delete_where : (R → Bool) → List R → List R
  delete_where p [] = []
  delete_where p (r ∷ rows) = let rest = delete_where p rows in if p r then rest else r ∷ rest

  -- `ORDER BY key DESC`, rows with equal keys in the order of insertion
  unfoldable pub insert_desc : (R → Bytes) → R → List R → List R
  insert_desc key r [] = r ∷ []
  insert_desc key r (s ∷ rows) =
      let rest = insert_desc key r rows in if str_lt (key r) (key s) then s ∷ rest else r ∷ s ∷ rows

  unfoldable pub order_desc : (R → Bytes) → List R → List R
  unfolding insert_desc
  order_desc key [] = []
  order_desc key (r ∷ rows) = insert_desc key r (order_desc key rows)

module _ {ℓ} {R : Type ℓ} (p q : R → Bool) (f : R → R) where
  -- An update that keeps the test `p` changes the row that `p` finds, and no other.
  pub select_first-update_where :
      ((r : R) → p (f r) ≡ p r)
      → (rows : List R)
      → select_first p (update_where q f rows)
        ≡ Option.map (λ r. if q r then f r else r) (select_first p rows)
  unfolding select_first update_where
  select_first-update_where keep [] = refl
  select_first-update_where keep (r ∷ rows) =
      ground (arith, keep r, select_first-update_where keep rows)

  pub count_where-update_where :
      ((r : R) → p (f r) ≡ p r)
      → (rows : List R) → count_where p (update_where q f rows) ≡ count_where p rows
  unfolding count_where update_where
  count_where-update_where keep [] = refl
  count_where-update_where keep (r ∷ rows) =
      ground (arith, keep r, count_where-update_where keep rows)

  pub exists_where-update_where :
      ((r : R) → p (f r) ≡ p r)
      → (rows : List R) → exists_where p (update_where q f rows) ≡ exists_where p rows
  unfolding exists_where update_where
  exists_where-update_where keep [] = refl
  exists_where-update_where keep (r ∷ rows) =
      ground (arith, keep r, exists_where-update_where keep rows)

module _ {ℓ} {R : Type ℓ} (p q : R → Bool) where
  -- A deletion of other rows leaves the row that `p` finds.
  pub select_first-delete_where :
      ((r : R) → p r ≡ true → q r ≡ false)
      → (rows : List R) → select_first p (delete_where q rows) ≡ select_first p rows
  unfolding select_first delete_where
  select_first-delete_where other [] = refl
  select_first-delete_where other (r ∷ rows) =
      ground (arith, other r, select_first-delete_where other rows)

module _ {ℓ} {R : Type ℓ} (p : R → Bool) where
  -- An insertion leaves the row that was found.
  pub select_first-append :
      (rows more : List R) (r : R)
      → select_first p rows ≡ some r
      → select_first p (rows ++ more) ≡ some r
  unfolding select_first
  select_first-append [] more r h = cc
  select_first-append (s ∷ rows) more r h = ground (arith, select_first-append rows more r)

  pub count_where-append :
      (rows more : List R) → count_where p (rows ++ more) ≡ count_where p rows + count_where p more
  unfolding count_where
  count_where-append [] more = omega arith
  count_where-append (r ∷ rows) more = ground (arith, count_where-append rows more)

  pub exists_where-append :
      (rows more : List R)
      → exists_where p (rows ++ more) ≡ (if exists_where p rows then true else exists_where p more)
  unfolding exists_where
  exists_where-append [] more = refl
  exists_where-append (r ∷ rows) more = ground (arith, exists_where-append rows more)

  -- What a selection finds passes its test.
  pub select_first-passes : (rows : List R) (r : R) → select_first p rows ≡ some r → p r ≡ true
  unfolding select_first
  select_first-passes [] r h = cc
  select_first-passes (s ∷ rows) r h = elim (Bool-cases (p s)) [
    | inl found ↦ ground arith
    | inr other ↦ select_first-passes rows r (ground arith)
  ]

  pub count_where-zero : (rows : List R) → exists_where p rows ≡ false → count_where p rows ≡ 0
  unfolding exists_where count_where
  count_where-zero [] h = refl
  count_where-zero (r ∷ rows) h = ground (arith, count_where-zero rows)

  pub select_first-exists :
      (rows : List R) (r : R) → select_first p rows ≡ some r → exists_where p rows ≡ true
  unfolding select_first exists_where
  select_first-exists [] r h = cc
  select_first-exists (s ∷ rows) r h = ground (arith, select_first-exists rows r)

module _ {ℓ} {R : Type ℓ} where
  -- `ORDER BY key`
  unfoldable pub insert_asc : (R → ℕ) → R → List R → List R
  insert_asc key r [] = r ∷ []
  insert_asc key r (s ∷ rows) =
      let rest = insert_asc key r rows in if leb (key r) (key s) then r ∷ s ∷ rows else s ∷ rest

  unfoldable pub order_asc : (R → ℕ) → List R → List R
  unfolding insert_asc
  order_asc key [] = []
  order_asc key (r ∷ rows) = insert_asc key r (order_asc key rows)

module _ {ℓ} {R : Type ℓ} (p : R → Bool) where
  pub select_first-delete_self : (rows : List R) → select_first p (delete_where p rows) ≡ none
  unfolding select_first delete_where
  select_first-delete_self [] = refl
  select_first-delete_self (r ∷ rows) = ground (arith, select_first-delete_self rows)

  -- A deletion brings no row back.
  pub select_first-delete_none :
      (q : R → Bool) (rows : List R)
      → select_first p rows ≡ none
      → select_first p (delete_where q rows) ≡ none
  unfolding select_first delete_where
  select_first-delete_none q [] h = refl
  select_first-delete_none q (r ∷ rows) h = ground (arith, select_first-delete_none q rows)

module _ {ℓ} {R : Type ℓ} (p q : R → Bool) (f : R → R) where
  -- An update that makes no row pass `p` anew.
  pub count_where-update_none :
      ((r : R) → p (f r) ≡ true → p r ≡ true)
      → (rows : List R) → count_where p rows ≡ 0
      → count_where p (update_where q f rows) ≡ 0
  unfolding count_where update_where
  count_where-update_none back [] h = refl
  count_where-update_none back (r ∷ rows) h =
      ground (arith, back r, count_where-update_none back rows)

  -- An update that hits every row that passes `p` and makes it fail.
  pub count_where-update_all :
      ((r : R) → p (f r) ≡ false)
      → ((r : R) → p r ≡ true → q r ≡ true)
      → (rows : List R) → count_where p (update_where q f rows) ≡ 0
  unfolding count_where update_where
  count_where-update_all fails hits [] = refl
  count_where-update_all fails hits (r ∷ rows) =
      ground (arith, fails r, hits r, count_where-update_all fails hits rows)

module _ {ℓ} {R : Type ℓ} (p q : R → Bool) where
  pub exists_where-of_count :
      ((r : R) → p r ≡ true → q r ≡ true)
      → (rows : List R) → exists_where q rows ≡ false
      → count_where p rows ≡ 0
  unfolding count_where exists_where
  exists_where-of_count hits [] h = refl
  exists_where-of_count hits (r ∷ rows) h = ground (arith, hits r, exists_where-of_count hits rows)
