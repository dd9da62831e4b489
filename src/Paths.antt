-- ===== src/Paths.antt =====
-- What the program uses of the Go package path/filepath on Linux: `Clean`, `Join`, `Base` and
-- `Dir`, which are lexical.
pub mod Dir
use shudo.Prelude.{
  Bool, ◌||◌, List, [], ◌∷◌, ◌++◌, Bytes, codes, if◌then◌else◌, ◌==◌, str_eq, is_empty, is_abs,
}
use mathlib.Core.List.{reverse}

-- The parts between slashes: never none, and empty where slashes meet.
unfoldable pub split_slash : Bytes → Bytes → List Bytes
split_slash part [] = part ∷ []
split_slash part (a ∷ s) =
    let cut = part ∷ split_slash [] s in
    let longer = split_slash (part ++ a ∷ []) s in if a == b'/' then cut else longer

abbrev pub dot : Bytes
dot = codes "."

abbrev pub dot_dot : Bytes
dot_dot = codes ".."

-- `..` removes the part before it; at the root it goes, and at the head of a relative path it stays.
unfoldable pub pop_part : Bool → List Bytes → List Bytes
pop_part rooted [] = if rooted then [] else dot_dot ∷ []
pop_part rooted (p ∷ stack) = if str_eq p dot_dot then dot_dot ∷ p ∷ stack else stack

-- The parts that are left, the last one first.
unfoldable pub clean_parts : Bool → List Bytes → List Bytes → List Bytes
unfolding pop_part is_empty
clean_parts rooted stack [] = stack
clean_parts rooted stack (p ∷ parts) =
    clean_parts rooted
      (if is_empty p || str_eq p dot
        then stack
        else if str_eq p dot_dot
        then pop_part rooted stack
        else p ∷ stack)
      parts

unfoldable pub join_slash : List Bytes → Bytes
join_slash [] = []
join_slash (p ∷ []) = p
join_slash (p ∷ q ∷ parts) = p ++ b'/' ∷ join_slash (q ∷ parts)

unfoldable pub or_dot : Bytes → Bytes
or_dot [] = dot
or_dot (a ∷ s) = a ∷ s

unfoldable pub clean : Bytes → Bytes
unfolding split_slash clean_parts join_slash or_dot is_abs
clean path =
    let parts = join_slash (reverse (clean_parts (is_abs path) [] (split_slash [] path))) in
    if is_abs path then b'/' ∷ parts else or_dot parts

-- `filepath.Join` of two elements, the first of which is not empty.
unfoldable pub join : Bytes → Bytes → Bytes
unfolding clean
join dir s = if is_empty s then clean dir else clean (dir ++ b'/' ∷ s)

-- `Base`: the last part that is not empty.
last_part : Bytes → List Bytes → Bytes
unfolding is_empty
last_part found [] = found
last_part found (p ∷ parts) = last_part (if is_empty p then found else p) parts

unfoldable pub base : Bytes → Bytes
unfolding last_part split_slash
base path = if is_empty path then dot else last_part (codes "/") (split_slash [] path)

-- `Dir`: what stands up to the last slash, cleaned.
unfoldable pub up_to_slash : Bytes → Bytes
unfolding is_empty
up_to_slash [] = []
up_to_slash (a ∷ s) =
    let rest = up_to_slash s in
    if a == b'/' then a ∷ rest else if is_empty rest then [] else a ∷ rest

unfoldable pub dir : Bytes → Bytes
unfolding up_to_slash
dir path = clean (up_to_slash path)
