-- ===== src/Policy/Glob/Plain.antt =====
-- Patterns of plain characters, and values with a newline.
use shudo.Prelude.{
  ℕ, zero, suc, ◌≤◌, ◌<◌, ◌≡◌, refl, ap, ◌↔◌, inl, inr, true, false, List, [], ◌∷◌, Bytes, codes,
  All, take, contains_byte, arith, Bool-cases, ltb, ltb→lt, ◌==◌,
}
use shudo.Policy.Glob.Runes.{head_rune, runes_from, runes}
use shudo.Policy.Glob.Pattern.{any_path, literal, compile, match_atoms, glob}

-- An ASCII character that is neither `*` nor `?`.
pub record IsPlain (c : ℕ) : Type 0 where
  pub ascii : c < 128
  pub no_star : (c == b'*') ≡ false
  pub no_mark : (c == b'?') ≡ false

head_rune-ascii : (a : ℕ) (s : Bytes) → a < 128 → head_rune a s ≡ (a, 0)
unfolding head_rune
head_rune-ascii a s h = ground arith

head_rune-high : (a : ℕ) (s : Bytes) → 128 ≤ a → 128 ≤ (head_rune a s).0
unfolding head_rune
head_rune-high a [] h = ground arith
head_rune-high a (b ∷ []) h = ground arith
head_rune-high a (b ∷ c ∷ []) h = ground arith
head_rune-high a (b ∷ c ∷ d ∷ s) h = ground arith

-- The bytes that an encoding takes after its first are not ASCII.
head_rune-width : (a : ℕ) (s : Bytes) → All (λ b. 128 ≤ b) (take (head_rune a s).1 s)
unfolding head_rune
head_rune-width a [] = ground arith
head_rune-width a (b ∷ []) = ground arith
head_rune-width a (b ∷ c ∷ []) = ground arith
head_rune-width a (b ∷ c ∷ d ∷ s) = ground arith

runes-plain : (s : Bytes) → All IsPlain s → runes s ≡ s
unfolding runes
runes-plain [] h = refl
runes-plain (a ∷ s) h = rw (head_rune-ascii a s h.0.ascii) (ap (λ r. a ∷ r) (runes-plain s h.1))

-- No other bytes have these characters.
runes-plain_only : (p v : Bytes) → All IsPlain p → runes v ≡ p → v ≡ p
unfolding runes
runes-plain_only [] [] h e = refl
runes-plain_only [] (a ∷ v) h e = cc
runes-plain_only (c ∷ p) [] h e = cc
runes-plain_only (c ∷ p) (a ∷ v) h e = elim (Bool-cases (ltb a 128)) [
  | inl low ↦
      let split = rw (head_rune-ascii a v (ltb→lt a 128 low)) at e in
      let rest = runes-plain_only p v h.1 (ground arith) in ground arith
  | inr high ↦ absurd (ground (arith, head_rune-high a v, h.0.ascii))
]

compile-cons : (a : ℕ) (p : Bytes) → IsPlain a → compile (a ∷ p) ≡ literal a ∷ compile p
unfolding compile
compile-cons a [] h = ground (arith, h.no_star, h.no_mark)
compile-cons a (b ∷ p) h = ground (arith, h.no_star, h.no_mark)

match_atoms-plain :
    (p : Bytes) (v : List ℕ) → All IsPlain p → (match_atoms (compile p) v ≡ true) ↔ (v ≡ p)
unfolding match_atoms
match_atoms-plain [] [] h = (λ _. refl, λ _. unfold compile in refl)
match_atoms-plain [] (r ∷ v) h = (λ m. absurd (unfold compile in cc), λ e. cc)
match_atoms-plain (a ∷ p) [] h = rw (compile-cons a p h.0) (λ m. cc, λ e. cc)
match_atoms-plain (a ∷ p) (r ∷ v) h =
    rw (compile-cons a p h.0) (ground (arith, match_atoms-plain p v h.1))

-- A pattern of plain characters accepts exactly the value that is the same text.
pub glob-plain : (p v : Bytes) → All IsPlain p → (glob p v ≡ true) ↔ (v ≡ p)
unfolding glob
glob-plain p v h = (
  λ m. runes-plain_only p v h ((match_atoms-plain p (runes v) h).0 m),
  λ e. (match_atoms-plain p (runes v) h).1 (rw e (runes-plain p h)),
)

-- A newline in the bytes is a newline among the characters.
runes_from-newline :
    (skip : ℕ) (v : Bytes)
    → All (λ b. 128 ≤ b) (take skip v)
    → contains_byte 10 v ≡ true
    → contains_byte 10 (runes_from skip v) ≡ true
unfolding contains_byte runes_from
runes_from-newline skip [] h n = cc
runes_from-newline (suc skip) (a ∷ v) h n = runes_from-newline skip v h.1 (ground (arith, h.0))
runes_from-newline zero (a ∷ v) h n = elim (Bool-cases (a == 10)) [
  | inl e ↦ rw (head_rune-ascii a v (ground arith)) (ground arith)
  | inr ne ↦ ground (arith, runes_from-newline (head_rune a v).1 v (head_rune-width a v))
]

match_path-newline :
    (v : List ℕ) → contains_byte 10 v ≡ true → match_atoms (any_path ∷ []) v ≡ false
unfolding match_atoms contains_byte
match_path-newline [] h = cc
match_path-newline (r ∷ v) h = ground (arith, match_path-newline v)

abbrev pub star_star : Bytes
star_star = codes "**"

-- The pattern `**` accepts no value with a newline in it.
pub glob-newline : (v : Bytes) → contains_byte 10 v ≡ true → glob star_star v ≡ false
unfolding glob runes compile
glob-newline v h = match_path-newline (runes_from 0 v) (runes_from-newline 0 v tt h)
