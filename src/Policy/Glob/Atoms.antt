-- ===== src/Policy/Glob/Atoms.antt =====
-- The language of an expression, described by how an input splits, and that the matcher decides it.
use shudo.Prelude.{
  ℕ, ◌≡◌, refl, true, ◌&&◌, List, [], ◌∷◌, arith, Bool-cases, inl, inr, &&-true, ◌==◌, ==_iff,
}
use shudo.Policy.Glob.Pattern.{
  Atom, any_path, any_segment, any_char, literal, dot_accepts, segment_accepts, match_atoms,
}

-- What the pieces of a pattern stand for: any run without a newline, any run without a slash, one
-- character but a slash, and one given character.
pub data InLanguage : List Atom → List ℕ → Type 0 where
  done : InLanguage [] []
  path_stop : {p : List Atom} {v : List ℕ} → InLanguage p v → InLanguage (any_path ∷ p) v
  path_more :
      {p : List Atom} {v : List ℕ} (r : ℕ)
      → dot_accepts r ≡ true
      → InLanguage (any_path ∷ p) v
      → InLanguage (any_path ∷ p) (r ∷ v)
  segment_stop : {p : List Atom} {v : List ℕ} → InLanguage p v → InLanguage (any_segment ∷ p) v
  segment_more :
      {p : List Atom} {v : List ℕ} (r : ℕ)
      → segment_accepts r ≡ true
      → InLanguage (any_segment ∷ p) v
      → InLanguage (any_segment ∷ p) (r ∷ v)
  one :
      {p : List Atom} {v : List ℕ} (r : ℕ)
      → segment_accepts r ≡ true
      → InLanguage p v
      → InLanguage (any_char ∷ p) (r ∷ v)
  exactly :
      {p : List Atom} {v : List ℕ} (c : ℕ) → InLanguage p v → InLanguage (literal c ∷ p) (c ∷ v)

pub match_atoms_sound : (p : List Atom) (v : List ℕ) → match_atoms p v ≡ true → InLanguage p v
unfolding match_atoms
match_atoms_sound [] [] h = done
match_atoms_sound [] (r ∷ v) h = cc
match_atoms_sound (any_path ∷ p) [] h = path_stop (match_atoms_sound p [] h)
match_atoms_sound (any_path ∷ p) (r ∷ v) h =
    elim (Bool-cases (dot_accepts r && match_atoms (any_path ∷ p) v)) [
      | inl both ↦
          let (a, m) = &&-true (dot_accepts r) (match_atoms (any_path ∷ p) v) both in
          path_more r a (match_atoms_sound (any_path ∷ p) v m)
      | inr stop ↦ path_stop (match_atoms_sound p (r ∷ v) (rw stop at h))
    ]
match_atoms_sound (any_segment ∷ p) [] h = segment_stop (match_atoms_sound p [] h)
match_atoms_sound (any_segment ∷ p) (r ∷ v) h =
    elim (Bool-cases (segment_accepts r && match_atoms (any_segment ∷ p) v)) [
      | inl both ↦
          let (a, m) = &&-true (segment_accepts r) (match_atoms (any_segment ∷ p) v) both in
          segment_more r a (match_atoms_sound (any_segment ∷ p) v m)
      | inr stop ↦ segment_stop (match_atoms_sound p (r ∷ v) (rw stop at h))
    ]
match_atoms_sound (any_char ∷ p) [] h = cc
match_atoms_sound (any_char ∷ p) (r ∷ v) h =
    let (a, m) = &&-true (segment_accepts r) (match_atoms p v) h in
    one r a (match_atoms_sound p v m)
match_atoms_sound (literal c ∷ p) [] h = cc
match_atoms_sound (literal c ∷ p) (r ∷ v) h =
    let (a, m) = &&-true (r == c) (match_atoms p v) h in
    rw ((==_iff r c).0 a) (exactly c (match_atoms_sound p v m))

pub match_atoms_complete : {p : List Atom} {v : List ℕ} → InLanguage p v → match_atoms p v ≡ true
unfolding match_atoms
match_atoms_complete done = refl
match_atoms_complete (path_stop {v = []} l) = match_atoms_complete l
match_atoms_complete (path_stop {v = r ∷ v} l) = ground (arith, match_atoms_complete l)
match_atoms_complete (path_more r a l) = ground (arith, match_atoms_complete l)
match_atoms_complete (segment_stop {v = []} l) = match_atoms_complete l
match_atoms_complete (segment_stop {v = r ∷ v} l) = ground (arith, match_atoms_complete l)
match_atoms_complete (segment_more r a l) = ground (arith, match_atoms_complete l)
match_atoms_complete (one r a l) = ground (arith, match_atoms_complete l)
match_atoms_complete (exactly c l) = ground (arith, match_atoms_complete l)
