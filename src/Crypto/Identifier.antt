-- ===== src/Crypto/Identifier.antt =====
-- A random identifier is 36 characters and keeps every random bit but the six that it fixes.
use shudo.Prelude.{ℕ, ◌+◌, ◌-◌, ◌*◌, [], ◌∷◌, Bytes, if◌then◌else◌, ltb, ◌==◌}

-- A reader of an identifier: it drops the dashes and takes two digits for a byte.
without_dashes : Bytes → Bytes
without_dashes [] = []
without_dashes (c ∷ s) = let rest = without_dashes s in if c == b'-' then rest else c ∷ rest

digit_value : ℕ → ℕ
digit_value c = if ltb c b'a' then c - b'0' else c - b'a' + 10

pairs_of : Bytes → Bytes
unfolding digit_value
pairs_of [] = []
pairs_of (a ∷ []) = []
pairs_of (a ∷ b ∷ s) = (digit_value a * 16 + digit_value b) ∷ pairs_of s

unfoldable pub read_uuid : Bytes → Bytes
unfolding without_dashes pairs_of
read_uuid s = pairs_of (without_dashes s)
