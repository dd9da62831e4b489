-- ===== src/State/Output/Appends.antt =====
-- What `AppendOutput` did when it wrote.
use shudo.Prelude.{
  ℕ, ◌≡◌, refl, ◌⊎◌, inl, inr, true, false, arith, Option, none, some, Bytes, length, ltb,
  Bool-cases, ap, sym, ◌∙◌, Result, ok, err,
}
use shudo.State.Tables.{Codec, ChunkRow, RequestRow, Tables, StoredRequest, StoreError, row_of}
use shudo.State.Requests.{get_from}
use shudo.State.Requests.Moves.{get_from-Loaded}
use shudo.State.Output.{
  AppendIo, kept_output, new_chunk, insert_chunk, try_insert, count_output, end_append, append_to,
  append_output,
}

pub record Appended (io : AppendIo) (id : Bytes) (sequence : ℕ) (stream bytes : Bytes) (limit : ℕ)
    (t t' : Tables) : Type 0 where
  pub row : RequestRow
  pub found : row_of id t ≡ some row
  pub not_truncated : row.output_truncated ≡ false
  pub stored : Bytes
  pub kept : stored ≡ kept_output io.disk limit row.output_bytes bytes
  pub middle : Tables
  pub inserted : insert_chunk (new_chunk id sequence stream stored) t ≡ ok middle
  pub written :
      ((io.updates ≡ true)
        × (t' ≡ count_output id (length stored) (ltb (length stored) (length bytes)) middle))
      ⊎ ((io.updates ≡ false) × (t' ≡ middle))

module _ (c : Codec) (io : AppendIo) (id : Bytes) (sequence : ℕ) (stream bytes : Bytes) (limit : ℕ)
    (t : Tables) where
  try_insert-ok :
      (k : ChunkRow) {t' : Tables} → try_insert io k t ≡ ok t' → insert_chunk k t ≡ ok t'
  unfolding try_insert
  try_insert-ok k h = ground arith

  end_append-written :
      (stored : Bytes) (middle : Tables)
      → let t' = (end_append io id stored (ltb (length stored) (length bytes)) t (ok middle)).1 in
        ((io.updates ≡ true)
          × (t' ≡ count_output id (length stored) (ltb (length stored) (length bytes)) middle))
        ⊎ ((io.updates ≡ false) × (t' ≡ middle))
  unfolding end_append
  end_append-written stored middle = elim (Bool-cases io.updates) [
    | inl b ↦ inl (b, rw b refl)
    | inr b ↦ inr (b, rw b refl)
  ]

  end_append-cases :
      (r : RequestRow) (stored : Bytes)
      → row_of id t ≡ some r
      → r.output_truncated ≡ false
      → stored ≡ kept_output io.disk limit r.output_bytes bytes
      → (m : Result StoreError Tables) → try_insert io (new_chunk id sequence stream stored) t ≡ m
      → let t' = (end_append io id stored (ltb (length stored) (length bytes)) t m).1 in
        (t' ≡ t) ⊎ Appended io id sequence stream bytes limit t t'
  unfolding end_append
  end_append-cases r stored found open' kept (err e) i = inl refl
  end_append-cases r stored found open' kept (ok middle) i = inr (record {
    row = r;
    found = found;
    not_truncated = open';
    stored = stored;
    kept = kept;
    middle = middle;
    inserted = try_insert-ok (new_chunk id sequence stream stored) i;
    written = end_append-written stored middle;
  })

  append_to-cases :
      (m : Result StoreError (Option StoredRequest))
      → get_from c t id ≡ m
      → let t' = (append_to io id sequence stream bytes limit t m).1 in
        (t' ≡ t) ⊎ Appended io id sequence stream bytes limit t t'
  unfolding append_to
  append_to-cases (err e) g = inl refl
  append_to-cases (ok none) g = inl refl
  append_to-cases (ok (some q)) g =
      let l = get_from-Loaded c id t q g in
      elim (Bool-cases q.output_truncated) [
        | inl full ↦ inl (rw full)
        | inr open' ↦ rw open' (
            end_append-cases l.row (kept_output io.disk limit q.output_bytes bytes) l.found
              (ap (λ (x : StoredRequest). x.output_truncated) (sym l.same) ∙ open')
              (ap (λ (x : StoredRequest). kept_output io.disk limit x.output_bytes bytes) l.same)
              (try_insert io
                (new_chunk id sequence stream (kept_output io.disk limit q.output_bytes bytes)) t)
              refl)
      ]

  pub append_output-cases :
      let t' = (append_output c io id sequence stream bytes limit t).1 in
      (t' ≡ t) ⊎ Appended io id sequence stream bytes limit t t'
  unfolding append_output
  append_output-cases = append_to-cases (get_from c t id) refl
