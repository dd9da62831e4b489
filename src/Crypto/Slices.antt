-- ===== src/Crypto/Slices.antt =====
-- Texts that are cut at an index.
use shudo.Prelude.{
  ℕ, zero, suc, ◌+◌, ◌-◌, ◌<◌, ◌≡◌, refl, ap, sym, ◌∙◌, [], ◌∷◌, ◌++◌, Bytes, length, take, drop,
  All, arith, ◌≤◌,
}

abbrev pub IsByte : ℕ → Type 0
IsByte b = b < 256

suc_add : (n m : ℕ) → suc n + m ≡ suc (n + m)
suc_add n m = omega arith

-- A piece at the end of what was taken.
pub take_more : (n m : ℕ) (v : Bytes) → take n v ++ take m (drop n v) ≡ take (n + m) v
take_more zero m v = ap (λ i. take i v) (omega arith)
take_more (suc n) zero [] = sym (ap (λ i. take i []) (suc_add n 0))
take_more (suc n) (suc m) [] = sym (ap (λ i. take i []) (suc_add n (suc m)))
take_more (suc n) m (b ∷ v) =
    ap (λ s. b ∷ s) (take_more n m v) ∙ sym (ap (λ i. take i (b ∷ v)) (suc_add n m))

pub take_whole : (n : ℕ) (v : Bytes) → length v ≤ n → take n v ≡ v
take_whole zero [] h = refl
take_whole zero (b ∷ v) h = absurd (omega arith)
take_whole (suc n) [] h = refl
take_whole (suc n) (b ∷ v) h = ap (λ s. b ∷ s) (take_whole n v (omega arith))

pub length-drop : (n : ℕ) (v : Bytes) → length (drop n v) ≡ length v - n
length-drop zero v = omega arith
length-drop (suc n) [] = omega arith
length-drop (suc n) (b ∷ v) = omega (arith, length-drop n v)

pub All-take : (n : ℕ) (v : Bytes) → All IsByte v → All IsByte (take n v)
All-take zero v p = tt
All-take (suc n) [] p = tt
All-take (suc n) (b ∷ v) p = (p.0, All-take n v p.1)

pub All-drop : (n : ℕ) (v : Bytes) → All IsByte v → All IsByte (drop n v)
All-drop zero v p = p
All-drop (suc n) [] p = tt
All-drop (suc n) (b ∷ v) p = All-drop n v p.1
