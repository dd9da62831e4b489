-- ===== src/Policy/Glob/Pattern.antt =====
-- The regular expression that `glob` builds, and what it matches.
use shudo.Prelude.{ℕ, Bool, true, false, not, ◌&&◌, List, [], ◌∷◌, Bytes, if◌then◌else◌, ◌==◌}
use shudo.Policy.Glob.Runes.{runes}

-- `.*`, `[^/]*`, `[^/]` and a quoted character. `string(pattern[index])` makes a rune of a byte.
pub data Atom : Type 0 where
  any_path any_segment any_char : Atom
  literal : ℕ → Atom

unfoldable pub one_atom : ℕ → Atom
one_atom c = if c == b'*' then any_segment else if c == b'?' then any_char else literal c

unfoldable pub compile : Bytes → List Atom
unfolding one_atom
compile [] = []
compile (a ∷ []) = one_atom a ∷ []
compile (a ∷ b ∷ s) =
    let double = any_path ∷ compile s in
    let single = one_atom a ∷ compile (b ∷ s) in if a == b'*' && b == b'*' then double else single

-- `.` is every rune but a newline, since the expression has no flag `s`.
unfoldable pub dot_accepts : ℕ → Bool
dot_accepts r = not (r == 10)

unfoldable pub segment_accepts : ℕ → Bool
segment_accepts r = not (r == b'/')

-- The whole input is matched: the expression begins with `^` and ends with `$`.
unfoldable pub match_atoms : List Atom → List ℕ → Bool
unfolding dot_accepts segment_accepts
match_atoms [] [] = true
match_atoms [] (r ∷ rs) = false
match_atoms (any_path ∷ p) [] = match_atoms p []
match_atoms (any_path ∷ p) (r ∷ rs) =
    let more = match_atoms (any_path ∷ p) rs in
    let stop = match_atoms p (r ∷ rs) in if dot_accepts r && more then true else stop
match_atoms (any_segment ∷ p) [] = match_atoms p []
match_atoms (any_segment ∷ p) (r ∷ rs) =
    let more = match_atoms (any_segment ∷ p) rs in
    let stop = match_atoms p (r ∷ rs) in if segment_accepts r && more then true else stop
match_atoms (any_char ∷ p) [] = false
match_atoms (any_char ∷ p) (r ∷ rs) = segment_accepts r && match_atoms p rs
match_atoms (literal c ∷ p) [] = false
match_atoms (literal c ∷ p) (r ∷ rs) = r == c && match_atoms p rs

unfoldable pub glob : Bytes → Bytes → Bool
unfolding compile match_atoms runes
glob pattern' value = match_atoms (compile pattern') (runes value)
