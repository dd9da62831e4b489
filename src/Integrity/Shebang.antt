-- ===== src/Integrity/Shebang.antt =====
-- The first line of a script: `inspectShebang`.
use shudo.Prelude.{
  ℕ, Bool, ◌||◌, Option, none, some, [], ◌∷◌, Bytes, codes, take, drop, if◌then◌else◌, ◌==◌, not,
  is_empty, has_prefix, is_abs, Result, ok, err,
}
use shudo.Strings.{trim_space}
use shudo.Integrity.{IntegrityError, bad_shebang}

pub record Shebang : Type 0 where
  pub path : Bytes
  pub argument : Option Bytes

-- `ReadString('\n')`: the line with its end, or what there is.
unfoldable pub first_line : Bytes → Bytes
first_line [] = []
first_line (a ∷ s) = let rest = first_line s in if a == b'\n' then a ∷ [] else a ∷ rest

abbrev pub is_blank : ℕ → Bool
is_blank a = a == b' ' || a == b'\t'

-- `value[:index]` and `value[index:]` for the first blank; without one the second is empty.
unfoldable pub cut_blank : Bytes → Bytes × Bytes
cut_blank [] = ([], [])
cut_blank (a ∷ s) =
    let rest = cut_blank s in if is_blank a then ([], a ∷ s) else (a ∷ rest.0, rest.1)

non_empty : Bytes → Option Bytes
non_empty [] = none
non_empty (a ∷ s) = some (a ∷ s)

-- Of the text behind `#!`, which is trimmed.
unfoldable pub parse_shebang : Bytes → Result IntegrityError (Option Shebang)
unfolding cut_blank non_empty
parse_shebang value =
    let cut = cut_blank value in
    if is_empty value || not (is_abs cut.0)
    then err bad_shebang
    else ok (some (record { path = cut.0; argument = non_empty (trim_space cut.1) }))

-- `none` for a file that is no script.
unfoldable pub inspect_shebang : Bytes → Result IntegrityError (Option Shebang)
unfolding first_line parse_shebang
inspect_shebang content =
    let line = first_line (take 4096 content) in
    if not (has_prefix line (codes "#!")) then ok none else parse_shebang (trim_space (drop 2 line))
