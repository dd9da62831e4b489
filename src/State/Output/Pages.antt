-- ===== src/State/Output/Pages.antt =====
-- `OutputAfter` reads page by page.
use shudo.Prelude.{
  ℕ, ◌+◌, ◌≤◌, ◌<◌, ◌≡◌, refl, ap, Bool, true, false, ◌&&◌, ◌⊎◌, List, [], ◌∷◌, ◌++◌, Bytes, length,
  arith, Bool-cases, inl, inr, ltb,
}
use shudo.State.Tables.{Tables, OutputChunk}
use shudo.State.Output.{collect, chunks_from, output_after}

unfoldable pub page_bytes : List OutputChunk → ℕ
page_bytes [] = 0
page_bytes (k ∷ page) = length k.bytes + page_bytes page

abbrev pub has_chunks : List OutputChunk → Bool
has_chunks [] = false
has_chunks (k ∷ chunks) = true

-- The page is the first part of the chunks, and is not empty if there are chunks; the answer says
-- whether chunks are left; and only the first chunk of a page may pass a limit.
pub record IsPage (limit : ℕ) (chunks page : List OutputChunk) (more : Bool) : Type 0 where
  pub rest : List OutputChunk
  pub split : chunks ≡ page ++ rest
  pub left : more ≡ has_chunks rest
  pub advances : has_chunks page ≡ has_chunks chunks
  pub fits : (limit ≡ 0) ⊎ (length page ≤ 1) ⊎ (page_bytes page ≤ limit)

collect-split :
    (limit : ℕ) (started : Bool) (total : ℕ) (chunks : List OutputChunk)
    → (rest : List OutputChunk) × (chunks ≡ (collect limit started total chunks).0 ++ rest)
      × ((collect limit started total chunks).1 ≡ has_chunks rest)
unfolding collect
collect-split limit started total [] = ([], refl, refl)
collect-split limit started total (k ∷ chunks) =
    elim (Bool-cases (ltb 0 limit && started && ltb limit (total + length k.bytes))) [
      | inl full ↦ rw full (k ∷ chunks, refl, refl)
      | inr free ↦
          let (rest, split, left) = collect-split limit true (total + length k.bytes) chunks in
          rw free (rest, ap (λ ks. k ∷ ks) split, left)
    ]

collect-fits :
    (limit total : ℕ) (chunks : List OutputChunk)
    → 0 < limit
    → ((collect limit true total chunks).0 ≡ [])
      ⊎ (total + page_bytes (collect limit true total chunks).0 ≤ limit)
unfolding collect page_bytes
collect-fits limit total [] h = inl refl
collect-fits limit total (k ∷ chunks) h =
    ground (arith, collect-fits limit (total + length k.bytes) chunks h)

not_started : (limit n : ℕ) → (ltb 0 limit && false && ltb limit n) ≡ false
not_started limit n = ground arith

collect-cons :
    (limit : ℕ) (k : OutputChunk) (chunks : List OutputChunk)
    → collect limit false 0 (k ∷ chunks) ≡ (
      k ∷ (collect limit true (length k.bytes) chunks).0,
      (collect limit true (length k.bytes) chunks).1,
    )
unfolding collect
collect-cons limit k chunks = ground (arith, not_started limit (length k.bytes))

page-fits :
    (limit : ℕ) (k : OutputChunk) (chunks : List OutputChunk)
    → let page = k ∷ (collect limit true (length k.bytes) chunks).0 in
      (limit ≡ 0) ⊎ (length page ≤ 1) ⊎ (page_bytes page ≤ limit)
unfolding page_bytes
page-fits limit k chunks = elim (Bool-cases (ltb 0 limit)) [
  | inr no_limit ↦ inl (ground arith)
  | inl limited ↦ elim (collect-fits limit (length k.bytes) chunks (ground arith)) [
    | inl alone ↦ inr (inl (rw alone (omega arith)))
    | inr fits ↦ inr (inr fits)
  ]
]

collect-IsPage :
    (limit : ℕ) (chunks : List OutputChunk)
    → IsPage limit chunks (collect limit false 0 chunks).0 (collect limit false 0 chunks).1
unfolding collect
collect-IsPage limit [] = record {
  rest = [];
  split = refl;
  left = refl;
  advances = refl;
  fits = inr (inl (omega arith));
}
collect-IsPage limit (k ∷ chunks) =
    let (rest, split, left) = collect-split limit true (length k.bytes) chunks in
    rw (collect-cons limit k chunks) (record {
      rest = rest;
      split = ap (λ ks. k ∷ ks) split;
      left = left;
      advances = refl;
      fits = page-fits limit k chunks;
    })

-- `OutputAfter` returns the first part of the chunks from the sequence number on, at least one of
-- them if there is one, and says whether chunks are left; under a limit the page has one chunk at
-- most or fits.
pub output_after-IsPage :
    (t : Tables) (id : Bytes) (after limit : ℕ)
    → IsPage limit
        (chunks_from t id after)
        (output_after t id after limit).0
        (output_after t id after limit).1
unfolding output_after
output_after-IsPage t id after limit = collect-IsPage limit (chunks_from t id after)
