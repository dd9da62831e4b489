-- ===== src/Strings/Trimmed.antt =====
-- A trimmed text has no more white space at its ends.
use mathlib.Core.List.{reverse, reverse-append, reverse-reverse}
use mathlib.Core.Path.{subst}
use shudo.Prelude.{
  ℕ, zero, suc, ◌⊎◌, inl, inr, ◌≡◌, refl, sym, ap, ◌∙◌, [], ◌∷◌, ◌++◌, Bytes, arith, false,
  is_empty,
}
use shudo.Strings.{space_width, last_space_width, trim_by, trim_space}

ℕ-cases : (n : ℕ) → (n ≡ 0) ⊎ ((m : ℕ) × (n ≡ suc m))
ℕ-cases zero = inl refl
ℕ-cases (suc m) = inr (m, refl)

module _ (width : ℕ → Bytes → ℕ) where
  trim_by-zero : (a : ℕ) (s : Bytes) → width a s ≡ 0 → trim_by width 0 (a ∷ s) ≡ a ∷ s
  unfolding trim_by
  trim_by-zero a s h = rw (trim_by, h) refl

  trim_by-suc :
      (a : ℕ) (s : Bytes) (skip : ℕ)
      → width a s ≡ suc skip
      → trim_by width 0 (a ∷ s) ≡ trim_by width skip s
  unfolding trim_by
  trim_by-suc a s skip h = rw (trim_by, h) refl

  -- What is left begins with no white space.
  trim_by-stops :
      (skip : ℕ) (s : Bytes) {a : ℕ} {r : Bytes} → trim_by width skip s ≡ a ∷ r → width a r ≡ 0
  unfolding trim_by
  trim_by-stops skip [] h = cc
  trim_by-stops (suc skip) (b ∷ s) h = trim_by-stops skip s h
  trim_by-stops zero (b ∷ s) h = elim (ℕ-cases (width b s)) [
    | inl e ↦
        let same = sym (trim_by-zero b s e) ∙ h in
        subst (λ (u : Bytes). starts u ≡ 0) {x = b ∷ s} same e
    | inr (skip, e) ↦ trim_by-stops skip s (sym (trim_by-suc b s skip e) ∙ h)
  ]
    where
      starts : Bytes → ℕ
      starts [] = 0
      starts (c ∷ u) = width c u

  trim_by-again : (s : Bytes) → trim_by width 0 (trim_by width 0 s) ≡ trim_by width 0 s
  unfolding trim_by
  trim_by-again s = go (trim_by width 0 s) refl
    where
      go : (u : Bytes) → trim_by width 0 s ≡ u → trim_by width 0 u ≡ u
      go [] h = refl
      go (a ∷ r) h = trim_by-zero a r (trim_by-stops 0 s h)

  -- It is the end of the text.
  trim_by-suffix :
      (skip : ℕ) (s : Bytes) → (dropped : Bytes) × (s ≡ dropped ++ trim_by width skip s)
  unfolding trim_by
  trim_by-suffix skip [] = ([], refl)
  trim_by-suffix (suc skip) (b ∷ s) =
      let (dropped, same) = trim_by-suffix skip s in (b ∷ dropped, ap (λ u. b ∷ u) same)
  trim_by-suffix zero (b ∷ s) = elim (ℕ-cases (width b s)) [
    | inl e ↦ ([], sym (trim_by-zero b s e))
    | inr (skip, e) ↦
        let (dropped, same) = trim_by-suffix skip s in
        (
          b ∷ dropped,
          ap (λ u. b ∷ u) (same ∙ ap (λ u. dropped ++ u) (sym (trim_by-suc b s skip e))),
        )
  ]

-- White space at the start stays white space where more follows.
space_width-prefix : (a : ℕ) (r x : Bytes) → space_width a (r ++ x) ≡ 0 → space_width a r ≡ 0
unfolding space_width
space_width-prefix a [] [] h = h
space_width-prefix a [] (b ∷ []) h = ground arith
space_width-prefix a [] (b ∷ c ∷ x) h = ground arith
space_width-prefix a (b ∷ []) [] h = h
space_width-prefix a (b ∷ []) (c ∷ x) h = ground arith
space_width-prefix a (b ∷ c ∷ r) x h = h

-- A text is `reverse v`, for what the second pass leaves.
trim_space-again :
    (s : Bytes) {a : ℕ} {r : Bytes}
    → trim_space s ≡ a ∷ r
    → trim_space (trim_space s) ≡ trim_space s
unfolding trim_space
trim_space-again s {a} {r} h =
    let u = trim_by space_width 0 s in
    let v = trim_by last_space_width 0 (reverse u) in
    let (dropped, same) = trim_by-suffix last_space_width 0 (reverse u) in
    let whole : u ≡ a ∷ (r ++ reverse dropped) =
      sym (reverse-reverse u)
      ∙ ap reverse same
      ∙ reverse-append dropped v
      ∙ ap (λ w. w ++ reverse dropped) h in
    let first : space_width a r ≡ 0 =
      space_width-prefix a r (reverse dropped) (trim_by-stops space_width 0 s whole) in
    let once : trim_by space_width 0 (reverse v) ≡ reverse v =
      ap (trim_by space_width 0) h ∙ trim_by-zero space_width a r first ∙ sym h in
    let twice : trim_by last_space_width 0 v ≡ v = trim_by-again last_space_width (reverse u) in
    ap (λ w. reverse (trim_by last_space_width 0 (reverse w))) once
    ∙ ap (λ w. reverse (trim_by last_space_width 0 w)) (reverse-reverse v)
    ∙ ap reverse twice

-- Trimming leaves a text that trimming does not empty.
pub trim_space-not_empty :
    (s : Bytes) → is_empty (trim_space s) ≡ false → is_empty (trim_space (trim_space s)) ≡ false
unfolding is_empty
trim_space-not_empty s h = go (trim_space s) refl h
  where
    go :
        (u : Bytes)
        → trim_space s ≡ u
        → is_empty u ≡ false
        → is_empty (trim_space (trim_space s)) ≡ false
    go [] e g = cc
    go (a ∷ r) e g = rw (trim_space-again s e, e) refl
