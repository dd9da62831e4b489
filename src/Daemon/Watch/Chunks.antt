-- ===== src/Daemon/Watch/Chunks.antt =====
-- Stored output in the order of its numbers, and what follows one chunk of it.
use shudo.Prelude.{
  ℕ, ◌+◌, ◌≤◌, ◌<◌, ◌≡◌, refl, sym, ap, ◌∙◌, Bool, true, false, ◌&&◌, List, [], ◌∷◌, Bytes, arith,
  All, leb, Bool-cases, inl, inr, leb→le,
}
use mathlib.Core.List.{map}
use mathlib.Core.Path.{subst}
use shudo.State.Sql.{select_where, order_asc, insert_asc}
use shudo.State.Tables.{Tables, ChunkRow, OutputChunk, chunk_of}
use shudo.State.Output.{chunk_fields, chunks_from}

-- Each number is below those after it.
abbrev pub Ascending : List ChunkRow → Type 0
Ascending [] = Unit
Ascending (k ∷ rows) = All (λ (b : ChunkRow). k.sequence < b.sequence) rows × Ascending rows

abbrev from : ℕ → ChunkRow → Bool
from after k = leb after k.sequence

insert_asc-All :
    (k : ChunkRow) (rows : List ChunkRow)
    → All (λ (b : ChunkRow). k.sequence < b.sequence) rows
    → insert_asc (λ (b : ChunkRow). b.sequence) k rows ≡ k ∷ rows
unfolding insert_asc
insert_asc-All k [] a = refl
insert_asc-All k (b ∷ rows) (h, a) = ground arith

order_asc-Ascending :
    (rows : List ChunkRow) → Ascending rows → order_asc (λ (b : ChunkRow). b.sequence) rows ≡ rows
unfolding order_asc
order_asc-Ascending [] a = refl
order_asc-Ascending (k ∷ rows) (h, a) = rw (order_asc-Ascending rows a) (insert_asc-All k rows h)

-- A selection from a chunk before all of them selects all.
select_where-All :
    (after : ℕ) (k : ChunkRow) (rows : List ChunkRow)
    → after ≤ k.sequence + 1
    → All (λ (b : ChunkRow). k.sequence < b.sequence) rows
    → select_where (from after) rows ≡ rows
unfolding select_where
select_where-All after k [] h a = refl
select_where-All after k (b ∷ rows) h (g, a) =
    let rest = select_where-All after k rows h a in
    let here : leb after b.sequence ≡ true = ground (arith, h, g) in rw (here, rest) refl

pub cons_inj {ℓ} :
    {A : Type ℓ} {k b : A} {ks bs : List A}
    → ◌≡◌ {A = List A} (k ∷ ks) (b ∷ bs)
    → (k ≡ b) × (ks ≡ bs)
cons_inj h = (cc, cc)

select_where-passes :
    (after : ℕ) (k : ChunkRow) (rows ks : List ChunkRow)
    → select_where (from after) rows ≡ k ∷ ks
    → after ≤ k.sequence
unfolding select_where
select_where-passes after k [] ks h = cc
select_where-passes after k (b ∷ rows) ks h = elim (Bool-cases (leb after b.sequence)) [
  | inl taken ↦
      let (same, more) = cons_inj (rw taken at h) in
      subst (λ (x : ChunkRow). after ≤ x.sequence) same (leb→le after b.sequence taken)
  | inr left ↦ select_where-passes after k rows ks (rw left at h)
]

-- After the first of the selected chunks, the others are selected.
select_where-next :
    (after : ℕ) (k : ChunkRow) (rows ks : List ChunkRow)
    → Ascending rows
    → select_where (from after) rows ≡ k ∷ ks
    → select_where (from (k.sequence + 1)) rows ≡ ks
unfolding select_where
select_where-next after k [] ks a h = cc
select_where-next after k (b ∷ rows) ks (g, a) h = elim (Bool-cases (leb after b.sequence)) [
  | inl taken ↦
      let (same, more) = cons_inj (rw taken at h) in
      let skipped : leb (b.sequence + 1) b.sequence ≡ false = ground arith in
      let low = leb→le after b.sequence taken in
      let rest : select_where (from (b.sequence + 1)) rows ≡ ks =
        select_where-All (b.sequence + 1) b rows (omega arith) g
        ∙ sym (select_where-All after b rows (omega (arith, low)) g)
        ∙ more in
      let all : select_where (from (b.sequence + 1)) (b ∷ rows) ≡ ks = rw skipped rest in
      subst (λ (x : ChunkRow). select_where (from (x.sequence + 1)) (b ∷ rows) ≡ ks) same all
  | inr left ↦
      let later = rw left at h in
      let passes = select_where-passes after k rows ks later in
      let skipped : leb (k.sequence + 1) b.sequence ≡ false = ground (arith, passes, left) in
      rw skipped (select_where-next after k rows ks a later)
]

select_where-and :
    (id : Bytes) (after : ℕ) (rows : List ChunkRow)
    → select_where (λ k. chunk_of id k && leb after k.sequence) rows
      ≡ select_where (from after) (select_where (chunk_of id) rows)
unfolding select_where
select_where-and id after [] = refl
select_where-and id after (k ∷ rows) = ground (arith, select_where-and id after rows)

All-select_where :
    (n after : ℕ) (rows : List ChunkRow)
    → All (λ (b : ChunkRow). n < b.sequence) rows
    → All (λ (b : ChunkRow). n < b.sequence) (select_where (from after) rows)
unfolding select_where
All-select_where n after [] a = tt
All-select_where n after (b ∷ rows) (g, a) = elim (Bool-cases (leb after b.sequence)) [
  | inl taken ↦ rw taken (g, All-select_where n after rows a)
  | inr left ↦ rw left (All-select_where n after rows a)
]

select_where-Ascending :
    (after : ℕ) (rows : List ChunkRow) → Ascending rows → Ascending (select_where (from after) rows)
unfolding select_where
select_where-Ascending after [] a = tt
select_where-Ascending after (k ∷ rows) (g, a) = elim (Bool-cases (leb after k.sequence)) [
  | inl taken ↦
      rw taken (All-select_where k.sequence after rows g, select_where-Ascending after rows a)
  | inr left ↦ rw left (select_where-Ascending after rows a)
]

-- The chunks of a request that are stored in the order of their numbers.
chunks_from-select_where :
    (t : Tables) (id : Bytes) (after : ℕ)
    → Ascending (select_where (chunk_of id) t.output_chunks)
    → chunks_from t id after
      ≡ map chunk_fields (select_where (from after) (select_where (chunk_of id) t.output_chunks))
unfolding chunks_from
chunks_from-select_where t id after a =
    let rows = select_where (chunk_of id) t.output_chunks in
    rw (select_where-and id after t.output_chunks) (
      ap (map chunk_fields) (
        order_asc-Ascending (select_where (from after) rows) (select_where-Ascending after rows a)))

pub chunks_from-next :
    (t : Tables) (id : Bytes) (after : ℕ) (k : OutputChunk) (ks : List OutputChunk)
    → Ascending (select_where (chunk_of id) t.output_chunks)
    → chunks_from t id after ≡ k ∷ ks
    → chunks_from t id (k.sequence + 1) ≡ ks
unfolding chunk_fields
chunks_from-next t id after k ks a h =
    let rows = select_where (chunk_of id) t.output_chunks in
    chunks_from-select_where t id (k.sequence + 1) a
    ∙ go rows a (select_where (from after) rows) refl
        (sym (chunks_from-select_where t id after a) ∙ h)
  where
    go :
        (rows : List ChunkRow)
        → Ascending rows
        → (found : List ChunkRow) → select_where (from after) rows ≡ found
        → map chunk_fields found ≡ k ∷ ks
        → map chunk_fields (select_where (from (k.sequence + 1)) rows) ≡ ks
    go rows a [] f e = cc
    go rows a (x ∷ xs) f e =
        let (same, more) = cons_inj e in
        let number : x.sequence ≡ k.sequence = ap (λ (y : OutputChunk). y.sequence) same in
        rw (sym number, select_where-next after x rows xs a f) more

-- The first chunk from a number on has no smaller number.
pub chunks_from-passes :
    (t : Tables) (id : Bytes) (after : ℕ) (k : OutputChunk) (ks : List OutputChunk)
    → Ascending (select_where (chunk_of id) t.output_chunks)
    → chunks_from t id after ≡ k ∷ ks
    → after ≤ k.sequence
unfolding chunk_fields
chunks_from-passes t id after k ks a h =
    let rows = select_where (chunk_of id) t.output_chunks in
    go rows (select_where (from after) rows) refl (sym (chunks_from-select_where t id after a) ∙ h)
  where
    go :
        (rows found : List ChunkRow)
        → select_where (from after) rows ≡ found
        → map chunk_fields found ≡ k ∷ ks
        → after ≤ k.sequence
    go rows [] f e = cc
    go rows (x ∷ xs) f e =
        let (same, more) = cons_inj e in
        subst (λ (y : OutputChunk). after ≤ y.sequence) same (select_where-passes after x rows xs f)

pub chunks_from-same :
    (t t' : Tables) (id : Bytes) (after : ℕ)
    → t.output_chunks ≡ t'.output_chunks
    → chunks_from t id after ≡ chunks_from t' id after
unfolding chunks_from
chunks_from-same t t' id after h = rw h refl
