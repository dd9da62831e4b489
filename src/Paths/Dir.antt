-- ===== src/Paths/Dir.antt =====
-- `Dir` leads to the root: it shortens every other absolute path.
use shudo.Prelude.{
  ℕ, ◌+◌, ◌-◌, ◌≤◌, ◌<◌, ◌≡◌, refl, ap, Bool, true, false, ◌||◌, List, [], ◌∷◌, ◌++◌, Bytes, codes,
  arith, length, length-append, if◌then◌else◌, ◌==◌, str_eq, str_eq_iff, is_empty, is_abs,
  Bool-cases, inl, inr, ◌⊎◌,
}
use mathlib.Core.List.{reverse_aux}
use shudo.Paths.{
  split_slash, pop_part, clean_parts, join_slash, clean, up_to_slash, dir, dot, dot_dot,
}

-- The length of the parts with a slash before each.
weight : List Bytes → ℕ
weight [] = 0
weight (p ∷ parts) = length p + 1 + weight parts

-- The same without the empty parts.
weight_of_some : List Bytes → ℕ
weight_of_some [] = 0
weight_of_some (p ∷ parts) =
    let rest = weight_of_some parts in if is_empty p then rest else length p + 1 + rest

weight-reverse_aux : (ps qs : List Bytes) → weight (reverse_aux ps qs) ≡ weight ps + weight qs
unfolding weight
weight-reverse_aux [] qs = omega arith
weight-reverse_aux (p ∷ ps) qs = omega (arith, weight-reverse_aux ps (p ∷ qs))

length-join_slash :
    (p : Bytes) (ps : List Bytes) → length (join_slash (p ∷ ps)) + 1 ≤ weight (p ∷ ps)
unfolding weight join_slash
length-join_slash p [] = omega arith
length-join_slash p (q ∷ ps) =
    omega (arith, length-join_slash q ps, length-append p (b'/' ∷ join_slash (q ∷ ps)))

length-join_slash_le : (ps : List Bytes) (n : ℕ) → weight ps ≤ n + 1 → length (join_slash ps) ≤ n
unfolding join_slash
length-join_slash_le [] n h = omega arith
length-join_slash_le (p ∷ ps) n h = omega (arith, length-join_slash p ps)

abbrev next_stack : Bytes → List Bytes → List Bytes
next_stack p stack =
    if is_empty p || str_eq p dot
    then stack
    else if str_eq p dot_dot
    then pop_part true stack
    else p ∷ stack

weight-pop_part : (stack : List Bytes) → weight (pop_part true stack) ≤ weight stack + 3
unfolding weight pop_part
weight-pop_part [] = omega arith
weight-pop_part (q ∷ stack) = elim (Bool-cases (str_eq q dot_dot)) [
  | inl up ↦ rw up (omega arith)
  | inr other ↦ rw other (omega arith)
]

weight-next_stack :
    (p : Bytes) (stack : List Bytes)
    → weight (next_stack p stack) ≤ weight stack + (if is_empty p then 0 else length p + 1)
unfolding weight
weight-next_stack p stack = elim (Bool-cases (is_empty p)) [
  | inl empty ↦ rw empty (omega arith)
  | inr some_there ↦ elim (Bool-cases (str_eq p dot)) [
    | inl here ↦ rw (some_there, here) (omega arith)
    | inr away ↦ elim (Bool-cases (str_eq p dot_dot)) [
      | inl up ↦
          let two : length p ≡ 2 = ap length ((str_eq_iff p dot_dot).0 up) in
          rw (some_there, away, up) (omega (arith, weight-pop_part stack, two))
      | inr down ↦ rw (some_there, away, down) (omega arith)
    ]
  ]
]

weight_of_some-cons :
    (p : Bytes) (parts : List Bytes)
    → weight_of_some (p ∷ parts) ≡ (if is_empty p then 0 else length p + 1) + weight_of_some parts
unfolding weight_of_some
weight_of_some-cons p parts = ground arith

weight-clean_parts :
    (stack parts : List Bytes)
    → weight (clean_parts true stack parts) ≤ weight stack + weight_of_some parts
unfolding weight weight_of_some clean_parts
weight-clean_parts stack [] = omega arith
weight-clean_parts stack (p ∷ parts) = omega (
  arith,
  weight-next_stack p stack,
  weight-clean_parts (next_stack p stack) parts,
  weight_of_some-cons p parts,
)

ends_in_slash : Bytes → Bool
ends_in_slash [] = false
ends_in_slash (a ∷ []) = a == b'/'
ends_in_slash (a ∷ b ∷ s) = ends_in_slash (b ∷ s)

weight_of_some-part : (p : Bytes) → weight_of_some (p ∷ []) ≤ length p + 1
unfolding weight_of_some
weight_of_some-part p = ground arith

weight_of_some-empty : (parts : List Bytes) → weight_of_some ([] ∷ parts) ≡ weight_of_some parts
unfolding weight_of_some is_empty
weight_of_some-empty parts = refl

weight_of_some-cut :
    (p : Bytes) (parts : List Bytes)
    → weight_of_some (p ∷ parts) ≤ length p + 1 + weight_of_some parts
weight_of_some-cut p parts = ground (arith, weight_of_some-cons p parts)

weight-split_slash :
    (part s : Bytes) → weight_of_some (split_slash part s) ≤ length part + length s + 1
unfolding split_slash
weight-split_slash part [] = omega (arith, weight_of_some-part part)
weight-split_slash part (a ∷ s) = elim (Bool-cases (a == b'/')) [
  | inl cut ↦
      rw cut (omega (arith, weight_of_some-cut part (split_slash [] s), weight-split_slash [] s))
  | inr longer ↦
      rw longer (omega (arith, length-append part (a ∷ []), weight-split_slash (part ++ a ∷ []) s))
]

-- A last slash leaves an empty part.
weight-split_slash-last :
    (part s : Bytes)
    → ends_in_slash s ≡ true
    → weight_of_some (split_slash part s) ≤ length part + length s
unfolding split_slash ends_in_slash weight_of_some
weight-split_slash-last part [] h = cc
weight-split_slash-last part (a ∷ []) h =
    rw h (omega (arith, weight_of_some-cut part ([] ∷ []), weight_of_some-empty []))
weight-split_slash-last part (a ∷ b ∷ s) h = elim (Bool-cases (a == b'/')) [
  | inl cut ↦ rw cut (
      omega (
        arith,
        weight_of_some-cut part (split_slash [] (b ∷ s)),
        weight-split_slash-last [] (b ∷ s) h,
      ))
  | inr longer ↦ rw longer (
      omega
        (arith, length-append part (a ∷ []), weight-split_slash-last (part ++ a ∷ []) (b ∷ s) h))
]

-- The parts that `clean` joins.
cleaned : Bytes → List Bytes
cleaned s = clean_parts true [] ([] ∷ split_slash [] s)

weight-cleaned : (s : Bytes) → weight (cleaned s) ≤ weight_of_some (split_slash [] s)
unfolding cleaned weight
weight-cleaned s =
    omega (
      arith,
      weight-clean_parts [] ([] ∷ split_slash [] s),
      weight_of_some-empty (split_slash [] s),
    )

clean-cleaned :
    (a : ℕ) (s : Bytes)
    → (a == b'/') ≡ true
    → clean (a ∷ s) ≡ b'/' ∷ join_slash (reverse_aux (cleaned s) [])
unfolding clean cleaned is_abs split_slash
clean-cleaned a s h = rw h refl

length-clean :
    (a : ℕ) (s : Bytes) (n : ℕ)
    → (a == b'/') ≡ true
    → weight_of_some (split_slash [] s) ≤ n + 1
    → length (clean (a ∷ s)) ≤ n + 1
unfolding weight
length-clean a s n h small = rw (clean-cleaned a s h) (
    omega (
      arith,
      length-join_slash_le (reverse_aux (cleaned s) []) n
          (omega (arith, weight-reverse_aux (cleaned s) [], weight-cleaned s)),
    ))

-- Cleaning an absolute path does not make it longer.
pub length-clean_le : (s : Bytes) → is_abs s ≡ true → length (clean s) ≤ length s
unfolding is_abs
length-clean_le [] h = cc
length-clean_le (a ∷ s) h =
    omega (arith, length-clean a s (length s) h (omega (arith, weight-split_slash [] s)))

pub is_abs-clean : (s : Bytes) → is_abs s ≡ true → is_abs (clean s) ≡ true
unfolding is_abs
is_abs-clean [] h = cc
is_abs-clean (a ∷ s) h = rw (clean-cleaned a s h) refl

ends_in_slash-cons : (a : ℕ) (s : Bytes) → ends_in_slash s ≡ true → ends_in_slash (a ∷ s) ≡ true
unfolding ends_in_slash
ends_in_slash-cons a [] h = cc
ends_in_slash-cons a (b ∷ s) h = h

-- What stands up to the last slash ends in one, if it is anything.
ends_in_slash-up_to_slash :
    (s : Bytes) → (up_to_slash s ≡ []) ⊎ (ends_in_slash (up_to_slash s) ≡ true)
unfolding up_to_slash is_empty
ends_in_slash-up_to_slash [] = inl refl
ends_in_slash-up_to_slash (a ∷ s) = elim (ends_in_slash-up_to_slash s) [
  | inl empty ↦ elim (Bool-cases (a == b'/')) [
    | inl slash ↦ inr (rw (slash, empty) (unfold ends_in_slash in slash))
    | inr other ↦ inl (rw (other, empty) refl)
  ]
  | inr ends ↦ elim (Bool-cases (a == b'/')) [
    | inl slash ↦ inr (rw slash (ends_in_slash-cons a (up_to_slash s) ends))
    | inr other ↦ not_slash other (up_to_slash s) ends
  ]
]
  where
    not_slash :
        (a == b'/') ≡ false
        → (u : Bytes) → ends_in_slash u ≡ true
        → ((if a == b'/' then a ∷ u else if is_empty u then [] else a ∷ u) ≡ [])
          ⊎ (ends_in_slash (if a == b'/' then a ∷ u else if is_empty u then [] else a ∷ u) ≡ true)
    not_slash other [] ends = inl (rw other refl)
    not_slash other (b ∷ u) ends = inr (rw other (ends_in_slash-cons a (b ∷ u) ends))

length-up_to_slash : (s : Bytes) → length (up_to_slash s) ≤ length s
unfolding up_to_slash
length-up_to_slash [] = omega arith
length-up_to_slash (a ∷ s) = ground (arith, length-up_to_slash s)

up_to_slash-rooted :
    (a : ℕ) (s : Bytes) → (a == b'/') ≡ true → up_to_slash (a ∷ s) ≡ a ∷ up_to_slash s
unfolding up_to_slash
up_to_slash-rooted a s h = rw h refl

pub is_abs-dir : (s : Bytes) → is_abs s ≡ true → is_abs (dir s) ≡ true
unfolding dir is_abs
is_abs-dir [] h = cc
is_abs-dir (a ∷ s) h =
    rw (up_to_slash-rooted a s h) (is_abs-clean (a ∷ up_to_slash s) (unfold is_abs in h))

some-ends_in_slash : (s : Bytes) → ends_in_slash s ≡ true → 1 ≤ length s
unfolding ends_in_slash
some-ends_in_slash [] h = cc
some-ends_in_slash (a ∷ s) h = omega arith

clean-slash : (a : ℕ) → (a == b'/') ≡ true → clean (a ∷ []) ≡ codes "/"
unfolding cleaned clean_parts split_slash join_slash is_empty
clean-slash a h = rw (clean-cleaned a [] h) refl

clean-shorter :
    (a : ℕ) (u : Bytes)
    → (a == b'/') ≡ true
    → ends_in_slash u ≡ true
    → length (clean (a ∷ u)) ≤ length u
clean-shorter a u h ends =
    let small : weight_of_some (split_slash [] u) ≤ length u - 1 + 1 =
      omega (arith, weight-split_slash-last [] u ends, some-ends_in_slash u ends) in
    omega (arith, length-clean a u (length u - 1) h small, some-ends_in_slash u ends)

-- Of an absolute path, `Dir` is the root or a shorter path.
pub dir-shorter : (s : Bytes) → is_abs s ≡ true → (dir s ≡ codes "/") ⊎ (length (dir s) < length s)
unfolding dir is_abs
dir-shorter [] h = cc
dir-shorter (a ∷ s) h = elim (ends_in_slash-up_to_slash s) [
  | inl empty ↦ inl (rw (up_to_slash-rooted a s h, empty) (clean-slash a h))
  | inr ends ↦ inr (
      rw (up_to_slash-rooted a s h)
        (omega (arith, clean-shorter a (up_to_slash s) h ends, length-up_to_slash s)))
]
