-- ===== src/Cli/Render/Clean.antt =====
-- Texts without control characters, and the lines of a text.
use shudo.Prelude.{
  ℕ, zero, suc, ◌+◌, ◌/◌, ◌%◌, ◌<◌, inl, inr, ◌≡◌, refl, ap, ◌∙◌, false, List, [], ◌∷◌, ◌++◌, Bytes,
  any, All, if◌then◌else◌, ltb, ◌==◌, arith, Bool-cases,
}
use shudo.Strings.{digits_from, to_decimal}
use shudo.Model.{Status, created, status_text}
use shudo.Cli.Render.{is_control, unlines}

-- A text without control characters, the line feed among them.
pub record IsClean (s : Bytes) : Type 0 where
  pub no_control : any is_control s ≡ false

pub plain : {s : Bytes} → any is_control s ≡ false → IsClean s
plain h = record { no_control = h }

append-IsClean : (s t : Bytes) → IsClean s → IsClean t → IsClean (s ++ t)
unfolding any
append-IsClean [] t p q = q
append-IsClean (c ∷ s) t p q =
    let b = p.no_control in
    let rest = append-IsClean s t (plain (ground arith)) q in
    let r = rest.no_control in plain (ground arith)

more-IsClean : (n : ℕ) (acc : Bytes) → n < 10 → IsClean acc → IsClean ((48 + n) ∷ acc)
unfolding any is_control
more-IsClean n acc below p = let b = p.no_control in plain (ground arith)

digits_from-IsClean : (fuel n : ℕ) (acc : Bytes) → IsClean acc → IsClean (digits_from fuel n acc)
unfolding digits_from any is_control
digits_from-IsClean zero n acc p = p
digits_from-IsClean (suc fuel) n acc p = elim (Bool-cases (ltb n 10)) [
  | inl last ↦ rw last (more-IsClean n acc (ground arith) p)
  | inr more ↦ rw more (
      digits_from-IsClean fuel (n / 10) ((48 + n % 10) ∷ acc)
        (more-IsClean (n % 10) acc (ground arith) p))
]

pub to_decimal-IsClean : (n : ℕ) → IsClean (to_decimal n)
unfolding to_decimal any
to_decimal-IsClean n = digits_from-IsClean 20 n [] (plain refl)

pub status_text-IsClean : (s : Status) → IsClean (status_text s)
unfolding status_text any is_control
status_text-IsClean created = plain refl
status_text-IsClean _ = plain refl

pub All-append {ℓ κ} :
    {A : Type ℓ} (P : A → Type κ) (xs ys : List A) → All P xs → All P ys → All P (xs ++ ys)
All-append P [] ys hx hy = hy
All-append P (x ∷ xs) ys hx hy = (hx.0, All-append P xs ys hx.1 hy)

-- A text and what follows it.
infixl 60 ◌⧺◌
pub ◌⧺◌ : {s t : Bytes} → IsClean s → IsClean t → IsClean (s ++ t)
◌⧺◌ {s} {t} p q = append-IsClean s t p q

pub text : (s : Bytes) → any is_control s ≡ false → IsClean s
text s h = plain h

-- The lines of a text in which each ends with a line feed, as a reader splits it.
add_first : ℕ → List Bytes → List Bytes
add_first c [] = (c ∷ []) ∷ []
add_first c (line ∷ lines) = (c ∷ line) ∷ lines

unfoldable pub split_lines : Bytes → List Bytes
unfolding add_first
split_lines [] = []
split_lines (c ∷ s) = let rest = split_lines s in if c == b'\n' then [] ∷ rest else add_first c rest

split_lines-append :
    (line s : Bytes) → IsClean line → split_lines (line ++ b'\n' ∷ s) ≡ line ∷ split_lines s
unfolding split_lines any is_control
split_lines-append [] s p = refl
split_lines-append (c ∷ line) s p =
    let b = p.no_control in ground (arith, split_lines-append line s (plain (ground arith)))

pub split_lines-unlines :
    (lines : List Bytes) → All IsClean lines → split_lines (unlines lines) ≡ lines
unfolding split_lines unlines
split_lines-unlines [] p = refl
split_lines-unlines (line ∷ lines) p =
    split_lines-append line (unlines lines) p.0 ∙ ap (λ r. line ∷ r) (split_lines-unlines lines p.1)
