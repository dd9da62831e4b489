-- ===== src/Policy/Glob/Language.antt =====
-- What a pattern matches, described by its bytes, and that the matcher decides it.
use shudo.Prelude.{
  ℕ, ◌≡◌, refl, ap, ◌↔◌, true, ◌&&◌, Option, none, some, ◌++◌, All, List, [], ◌∷◌, Bytes, arith,
  Bool-cases, inl, inr, &&-true, ◌==◌, ==_iff,
}
use shudo.Policy.Glob.Runes.{runes}
use shudo.Policy.Glob.Pattern.{
  Atom, any_path, any_segment, any_char, literal, one_atom, compile, dot_accepts, segment_accepts,
  glob,
}
use shudo.Policy.Glob.Atoms.{
  InLanguage, done, path_stop, path_more, segment_stop, segment_more, one, exactly,
  match_atoms_sound, match_atoms_complete,
}

-- The byte that a text begins with.
abbrev first_byte : Bytes → Option ℕ
first_byte [] = none
first_byte (c ∷ p) = some c

-- What a pattern means, read from its bytes without the expression: `**` stands for any run without
-- a newline, a `*` that no `*` follows for any run without a slash, `?` for one character but a
-- slash, and any other byte for itself. The value is a list of characters.
pub data Matches : Bytes → List ℕ → Type 0 where
  nothing : Matches [] []
  run :
      {p : Bytes} (skipped : List ℕ) {rest : List ℕ}
      → All (λ r. ¬ (r ≡ 10)) skipped
      → Matches p rest
      → Matches (b'*' ∷ b'*' ∷ p) (skipped ++ rest)
  part :
      {p : Bytes} (skipped : List ℕ) {rest : List ℕ}
      → ¬ (first_byte p ≡ some b'*')
      → All (λ r. ¬ (r ≡ b'/')) skipped
      → Matches p rest
      → Matches (b'*' ∷ p) (skipped ++ rest)
  character :
      {p : Bytes} (r : ℕ) {rest : List ℕ}
      → ¬ (r ≡ b'/')
      → Matches p rest
      → Matches (b'?' ∷ p) (r ∷ rest)
  itself :
      {p : Bytes} (c : ℕ) {rest : List ℕ}
      → ¬ (c ≡ b'*')
      → ¬ (c ≡ b'?')
      → Matches p rest
      → Matches (c ∷ p) (c ∷ rest)

-- The expression of a pattern, from its first bytes.
compile-run : (p : Bytes) → compile (b'*' ∷ b'*' ∷ p) ≡ any_path ∷ compile p
unfolding compile
compile-run p = refl

compile-part :
    (p : Bytes) → ¬ (first_byte p ≡ some b'*') → compile (b'*' ∷ p) ≡ any_segment ∷ compile p
unfolding compile one_atom
compile-part [] h = refl
compile-part (c ∷ p) h = ground (arith, h)

compile-character : (p : Bytes) → compile (b'?' ∷ p) ≡ any_char ∷ compile p
unfolding compile one_atom
compile-character [] = refl
compile-character (c ∷ p) = refl

compile-itself :
    (c : ℕ) (p : Bytes) → ¬ (c ≡ b'*') → ¬ (c ≡ b'?') → compile (c ∷ p) ≡ literal c ∷ compile p
unfolding compile one_atom
compile-itself c [] star mark = ground arith
compile-itself c (d ∷ p) star mark = ground arith

-- From the meaning to the expression.
InLanguage-run :
    {p : List Atom} (skipped : List ℕ) {v : List ℕ}
    → All (λ r. ¬ (r ≡ 10)) skipped
    → InLanguage p v
    → InLanguage (any_path ∷ p) (skipped ++ v)
unfolding dot_accepts
InLanguage-run [] h l = path_stop l
InLanguage-run (r ∷ skipped) h l = path_more r (ground (arith, h.0)) (InLanguage-run skipped h.1 l)

InLanguage-part :
    {p : List Atom} (skipped : List ℕ) {v : List ℕ}
    → All (λ r. ¬ (r ≡ b'/')) skipped
    → InLanguage p v
    → InLanguage (any_segment ∷ p) (skipped ++ v)
unfolding segment_accepts
InLanguage-part [] h l = segment_stop l
InLanguage-part (r ∷ skipped) h l =
    segment_more r (ground (arith, h.0)) (InLanguage-part skipped h.1 l)

Matches-InLanguage : {p : Bytes} {v : List ℕ} → Matches p v → InLanguage (compile p) v
unfolding segment_accepts
Matches-InLanguage nothing = unfold compile in done
Matches-InLanguage (run {p} skipped h m) =
    rw (compile-run p) (InLanguage-run skipped h (Matches-InLanguage m))
Matches-InLanguage (part {p} skipped next h m) =
    rw (compile-part p next) (InLanguage-part skipped h (Matches-InLanguage m))
Matches-InLanguage (character {p} r h m) =
    rw (compile-character p) (one r (ground (arith, h)) (Matches-InLanguage m))
Matches-InLanguage (itself {p} c star mark m) =
    rw (compile-itself c p star mark) (exactly c (Matches-InLanguage m))

-- From the expression to the meaning: what a first atom takes of the value.
split_run :
    {p : List Atom} {v : List ℕ}
    → InLanguage (any_path ∷ p) v
    → (skipped rest : List ℕ) × (v ≡ skipped ++ rest)
      × All (λ r. ¬ (r ≡ 10)) skipped
      × InLanguage p rest
unfolding dot_accepts
split_run (path_stop {v} l) = ([], v, refl, tt, l)
split_run (path_more r a l) =
    let (skipped, rest, same, h, l') = split_run l in
    (r ∷ skipped, rest, ap (λ v. r ∷ v) same, (λ e. ground (arith, a), h), l')

split_part :
    {p : List Atom} {v : List ℕ}
    → InLanguage (any_segment ∷ p) v
    → (skipped rest : List ℕ) × (v ≡ skipped ++ rest)
      × All (λ r. ¬ (r ≡ b'/')) skipped
      × InLanguage p rest
unfolding segment_accepts
split_part (segment_stop {v} l) = ([], v, refl, tt, l)
split_part (segment_more r a l) =
    let (skipped, rest, same, h, l') = split_part l in
    (r ∷ skipped, rest, ap (λ v. r ∷ v) same, (λ e. ground (arith, a), h), l')

split_character :
    {p : List Atom} {v : List ℕ}
    → InLanguage (any_char ∷ p) v
    → (r : ℕ) × (rest : List ℕ) × (v ≡ r ∷ rest) × (¬ (r ≡ b'/')) × InLanguage p rest
unfolding segment_accepts
split_character (one {v} r a l) = (r, v, refl, (λ e. ground (arith, a)), l)

split_literal :
    {c : ℕ} {p : List Atom} {v : List ℕ}
    → InLanguage (literal c ∷ p) v
    → (rest : List ℕ) × (v ≡ c ∷ rest) × InLanguage p rest
split_literal (exactly {v} c l) = (v, refl, l)

split_done : {v : List ℕ} → InLanguage [] v → v ≡ []
split_done done = refl

module _ (p : Bytes) (next : (v : List ℕ) → InLanguage (compile p) v → Matches p v)
    (v : List ℕ) where
  from_run : InLanguage (compile (b'*' ∷ b'*' ∷ p)) v → Matches (b'*' ∷ b'*' ∷ p) v
  from_run l =
      let (skipped, rest, same, h, l') = split_run (rw (compile-run p) at l) in
      rw same (run skipped h (next rest l'))

  from_part :
      ¬ (first_byte p ≡ some b'*') → InLanguage (compile (b'*' ∷ p)) v → Matches (b'*' ∷ p) v
  from_part last l =
      let (skipped, rest, same, h, l') = split_part (rw (compile-part p last) at l) in
      rw same (part skipped last h (next rest l'))

  from_character : InLanguage (compile (b'?' ∷ p)) v → Matches (b'?' ∷ p) v
  from_character l =
      let (r, rest, same, h, l') = split_character (rw (compile-character p) at l) in
      rw same (character r h (next rest l'))

  from_itself :
      (c : ℕ) → ¬ (c ≡ b'*') → ¬ (c ≡ b'?') → InLanguage (compile (c ∷ p)) v → Matches (c ∷ p) v
  from_itself c star mark l =
      let (rest, same, l') = split_literal (rw (compile-itself c p star mark) at l) in
      rw same (itself c star mark (next rest l'))

  -- A byte that does not begin `**`.
  from_single :
      (c : ℕ)
      → (c ≡ b'*' → ¬ (first_byte p ≡ some b'*'))
      → InLanguage (compile (c ∷ p)) v
      → Matches (c ∷ p) v
  from_single c last l = elim (Bool-cases (c == b'*')) [
    | inl star ↦
        let here : c ≡ b'*' = (==_iff c b'*').0 star in
        rw here (from_part (last here) (rw here at l))
    | inr other ↦ elim (Bool-cases (c == b'?')) [
      | inl mark ↦
          let here : c ≡ b'?' = (==_iff c b'?').0 mark in rw here (from_character (rw here at l))
      | inr plain ↦ from_itself c (λ e. ground (arith, other)) (λ e. ground (arith, plain)) l
    ]
  ]

InLanguage-Matches : (p : Bytes) (v : List ℕ) → InLanguage (compile p) v → Matches p v
InLanguage-Matches [] v l = rw (split_done {v = v} (unfold compile in l)) nothing
InLanguage-Matches (c ∷ []) v l =
    from_single [] (λ w m. InLanguage-Matches [] w m) v c (λ e f. cc) l
InLanguage-Matches (c ∷ d ∷ p) v l = elim (Bool-cases ((c == b'*') && (d == b'*'))) [
  | inl both ↦
      let (c_is, d_is) = &&-true (c == b'*') (d == b'*') both in
      let first : c ≡ b'*' = (==_iff c b'*').0 c_is in
      let second : d ≡ b'*' = (==_iff d b'*').0 d_is in
      rw (first, second) (from_run p (λ w m. InLanguage-Matches p w m) v (rw (first, second) at l))
  | inr single ↦
      from_single (d ∷ p) (λ w m. InLanguage-Matches (d ∷ p) w m) v c
        (λ e f. ground (arith, single)) l
]

-- `glob` accepts a value exactly if its characters match the pattern: `**` is any run without a
-- newline, another `*` any run without a slash, `?` one character but a slash, and any other byte
-- the character of its number.
pub glob_iff :
    (pattern' value : Bytes) → (glob pattern' value ≡ true) ↔ Matches pattern' (runes value)
unfolding glob
glob_iff pattern' value = (
  λ m.
      InLanguage-Matches pattern' (runes value)
        (match_atoms_sound (compile pattern') (runes value) m),
  λ m. match_atoms_complete (Matches-InLanguage m),
)
