-- ===== src/Strings.antt =====
-- What the program uses of the Go packages strings and fmt: `TrimSpace`, and `%d` of a number.
pub mod Trimmed
use shudo.Prelude.{
  ℕ, zero, suc, ◌+◌, ◌/◌, ◌%◌, Bool, ◌&&◌, ◌||◌, [], ◌∷◌, Bytes, if◌then◌else◌, ltb, leb, ◌==◌,
}
use mathlib.Core.List.{reverse}

-- The white space of Unicode, in UTF-8: how many bytes of it the text begins with.
is_ascii_space : ℕ → Bool
is_ascii_space a = a == 32 || (leb 9 a && leb a 13)

is_two_space : ℕ → ℕ → Bool
is_two_space a b = a == 0xc2 && (b == 0x85 || b == 0xa0)

is_three_space : ℕ → ℕ → ℕ → Bool
is_three_space a b c =
    (a == 0xe1 && b == 0x9a && c == 0x80)
    || (a == 0xe2
        && b == 0x80
        && ((leb 0x80 c && leb c 0x8a) || c == 0xa8 || c == 0xa9 || c == 0xaf))
    || (a == 0xe2 && b == 0x81 && c == 0x9f)
    || (a == 0xe3 && b == 0x80 && c == 0x80)

space_width : ℕ → Bytes → ℕ
unfolding is_ascii_space is_two_space is_three_space
space_width a [] = if is_ascii_space a then 1 else 0
space_width a (b ∷ []) = if is_ascii_space a then 1 else if is_two_space a b then 2 else 0
space_width a (b ∷ c ∷ s) =
    if is_ascii_space a
    then 1
    else if is_two_space a b
    then 2
    else if is_three_space a b c
    then 3
    else 0

-- The same of a reversed text, for the end.
last_space_width : ℕ → Bytes → ℕ
unfolding is_ascii_space is_two_space is_three_space
last_space_width a [] = if is_ascii_space a then 1 else 0
last_space_width a (b ∷ []) = if is_ascii_space a then 1 else if is_two_space b a then 2 else 0
last_space_width a (b ∷ c ∷ s) =
    if is_ascii_space a
    then 1
    else if is_two_space b a
    then 2
    else if is_three_space c b a
    then 3
    else 0

-- Drops white space; the number counts the bytes that are left of the last one.
trim_by : (ℕ → Bytes → ℕ) → ℕ → Bytes → Bytes
trim_by width skip [] = []
trim_by width (suc skip) (a ∷ s) = trim_by width skip s
trim_by width zero (a ∷ s) = elim (width a s) [ zero ↦ a ∷ s | suc skip ↦ trim_by width skip s ]

unfoldable pub trim_space : Bytes → Bytes
unfolding trim_by space_width last_space_width
trim_space s = reverse (trim_by last_space_width 0 (reverse (trim_by space_width 0 s)))

-- The decimal digits of a number, on fuel for its digits.
unfoldable pub digits_from : ℕ → ℕ → Bytes → Bytes
digits_from zero n acc = acc
digits_from (suc fuel) n acc =
    let more = digits_from fuel (n / 10) ((b'0' + n % 10) ∷ acc) in
    if ltb n 10 then (b'0' + n) ∷ acc else more

-- 20 digits are enough below 2 ^ 64.
unfoldable pub to_decimal : ℕ → Bytes
unfolding digits_from
to_decimal n = digits_from 20 n []
