-- ===== src/Policy/Glob/Runes.antt =====
-- A Go regular expression reads its input as runes: UTF-8, where a byte that starts no encoding is
-- the rune U+FFFD.
use shudo.Prelude.{
  ℕ, zero, suc, ◌+◌, ◌-◌, ◌*◌, Bool, ◌&&◌, List, [], ◌∷◌, Bytes, if◌then◌else◌, ltb, leb, ◌==◌,
}

within : ℕ → ℕ → ℕ → Bool
within lo hi b = leb lo b && leb b hi

abbrev rune_error : ℕ × ℕ
rune_error = (0xfffd, 0)

-- A rune, and how many bytes it takes after its first. The second byte has a narrower range where
-- the first is 0xe0 (no overlong forms), 0xed (no surrogates), 0xf0 or 0xf4.
three_bytes : ℕ → Bytes → ℕ × ℕ
unfolding within
three_bytes a (b ∷ c ∷ s) =
    if within (if a == 0xe0 then 0xa0 else 0x80) (if a == 0xed then 0x9f else 0xbf) b
      && within 0x80 0xbf c
    then ((a - 0xe0) * 4096 + (b - 0x80) * 64 + (c - 0x80), 2)
    else rune_error
three_bytes a _ = rune_error

four_bytes : ℕ → Bytes → ℕ × ℕ
unfolding within
four_bytes a (b ∷ c ∷ d ∷ s) =
    if within (if a == 0xf0 then 0x90 else 0x80) (if a == 0xf4 then 0x8f else 0xbf) b
      && within 0x80 0xbf c
      && within 0x80 0xbf d
    then ((a - 0xf0) * 262144 + (b - 0x80) * 4096 + (c - 0x80) * 64 + (d - 0x80), 3)
    else rune_error
four_bytes a _ = rune_error

two_bytes : ℕ → Bytes → ℕ × ℕ
unfolding within
two_bytes a (b ∷ s) = if within 0x80 0xbf b then ((a - 0xc0) * 64 + (b - 0x80), 1) else rune_error
two_bytes a _ = rune_error

unfoldable pub head_rune : ℕ → Bytes → ℕ × ℕ
unfolding two_bytes three_bytes four_bytes within
head_rune a s =
    if ltb a 0x80
    then (a, 0)
    else if within 0xc2 0xdf a
    then two_bytes a s
    else if within 0xe0 0xef a
    then three_bytes a s
    else if within 0xf0 0xf4 a
    then four_bytes a s
    else rune_error

-- The first argument counts the bytes that the last rune still takes.
unfoldable pub runes_from : ℕ → Bytes → List ℕ
unfolding head_rune
runes_from skip [] = []
runes_from (suc skip) (a ∷ s) = runes_from skip s
runes_from zero (a ∷ s) = let (r, width) = head_rune a s in r ∷ runes_from width s

unfoldable pub runes : Bytes → List ℕ
unfolding runes_from
runes s = runes_from 0 s
