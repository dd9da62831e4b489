-- ===== src/State/Output/Counted.antt =====
-- The stored output: its size is what the row of the request counts, and is within the limit.
use mathlib.Core.Path.{subst}
use shudo.Prelude.{
  ℕ, ◌+◌, ◌-◌, ◌≤◌, ◌≡◌, refl, sym, ap, ◌∙◌, true, some, List, [], ◌∷◌, ◌++◌, Bytes, length,
  length-take, arith, inl, inr, ok, if◌then◌else◌, ltb, str_eq_refl,
}
use shudo.State.Sql.{select_first, update_where, select_first-update_where, select_first-passes}
use shudo.State.Tables.{Codec, ChunkRow, RequestRow, Tables, of_request, chunk_of, row_of}
use shudo.State.Requests.{Disk}
use shudo.State.Output.{AppendIo, kept_output, new_chunk, insert_chunk, count_output, append_output}
use shudo.State.Output.Appends.{Appended, append_output-cases}

-- The bytes of a request that the chunks hold.
unfoldable pub total_bytes : Bytes → List ChunkRow → ℕ
total_bytes id [] = 0
total_bytes id (k ∷ chunks) =
    let rest = total_bytes id chunks in if chunk_of id k then length k.bytes + rest else rest

pub record IsCounted (limit : ℕ) (id : Bytes) (t : Tables) : Type 0 where
  pub row : RequestRow
  pub found : row_of id t ≡ some row
  pub counted : total_bytes id t.output_chunks ≡ row.output_bytes
  pub bounded : row.output_bytes ≤ limit

length-kept_output :
    (d : Disk) (limit n : ℕ) (bytes : Bytes) → length (kept_output d limit n bytes) ≤ limit - n
unfolding kept_output
length-kept_output d limit n bytes = ground (arith, length-take (limit - n) bytes)

total_bytes-append :
    (id : Bytes) (chunks : List ChunkRow) (k : ChunkRow)
    → chunk_of id k ≡ true
    → total_bytes id (chunks ++ k ∷ []) ≡ total_bytes id chunks + length k.bytes
unfolding total_bytes
total_bytes-append id [] k h = rw h (omega arith)
total_bytes-append id (x ∷ chunks) k h = ground (arith, total_bytes-append id chunks k h)

insert_chunk-total_bytes :
    (id : Bytes) (k : ChunkRow) (t : Tables) {t' : Tables}
    → chunk_of id k ≡ true
    → insert_chunk k t ≡ ok t'
    → (total_bytes id t'.output_chunks ≡ total_bytes id t.output_chunks + length k.bytes)
      × (t'.requests ≡ t.requests)
unfolding insert_chunk
insert_chunk-total_bytes id k t h e =
    (ground (arith, total_bytes-append id t.output_chunks k h), ground arith)

module _ (limit : ℕ) (id : Bytes) (t : Tables) (w : IsCounted limit id t) where
  updated :
      {io : AppendIo} {sequence : ℕ} {stream bytes : Bytes} {t' : Tables}
      → (a : Appended io id sequence stream bytes limit t t') → io.updates ≡ true
      → t' ≡ count_output id (length a.stored) (ltb (length a.stored) (length bytes)) a.middle
  updated a succeeds = elim a.written [
    | inl both ↦ both.1
    | inr both ↦ absurd (cc (both.0, succeeds))
  ]

  Appended-IsCounted :
      {io : AppendIo} {sequence : ℕ} {stream bytes : Bytes} (t' : Tables)
      → Appended io id sequence stream bytes limit t t'
      → io.updates ≡ true
      → IsCounted limit id t'
  unfolding count_output
  Appended-IsCounted {io} {sequence} {stream} {bytes} t' a succeeds =
      let written = updated a succeeds in
      let (total, requests) =
        insert_chunk-total_bytes id (new_chunk id sequence stream a.stored) t (str_eq_refl id)
          a.inserted in
      let same : w.row ≡ a.row = cc (w.found, a.found) in
      let mine : of_request id a.row ≡ true =
        select_first-passes (of_request id) t.requests a.row a.found in
      let kept = length-kept_output io.disk limit a.row.output_bytes bytes in
      let count = λ (r : RequestRow). record r {
        output_bytes = r.output_bytes + length a.stored;
        output_truncated = ltb (length a.stored) (length bytes);
      } in
      record {
        row = count a.row;
        found =
            ap (row_of id) written
            ∙ ap (λ rows. select_first (of_request id) (update_where (of_request id) count rows))
                requests
            ∙ select_first-update_where (of_request id) (of_request id) count (λ r. refl) t.requests
            ∙ rw (a.found, mine) refl;
        counted =
            ap (λ (u : Tables). total_bytes id u.output_chunks) written
            ∙ total
            ∙ rw (sym same) (ap (λ n. n + length a.stored) w.counted);
        bounded =
            let b = w.bounded in
            let b' : a.row.output_bytes ≤ limit = rw (← same) b in ground (arith, a.kept, kept, b');
      }

-- `AppendOutput` keeps the count of what is stored, and the limit, where its `UPDATE` succeeds.
pub append_output-IsCounted :
    (c : Codec) (io : AppendIo) (limit sequence : ℕ) (id stream bytes : Bytes) (t : Tables)
    → io.updates ≡ true
    → IsCounted limit id t
    → IsCounted limit id (append_output c io id sequence stream bytes limit t).1
append_output-IsCounted c io limit sequence id stream bytes t succeeds w =
    elim (append_output-cases c io id sequence stream bytes limit t) [
      | inl same ↦ subst (IsCounted limit id) (sym same) w
      | inr a ↦ Appended-IsCounted limit id t w _ a succeeds
    ]
