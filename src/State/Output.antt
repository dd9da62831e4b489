-- ===== src/State/Output.antt =====
-- The captured output: `AppendOutput`, `OutputAfter` and `Output`.
pub mod Appends
pub mod Counted
pub mod Pages
use shudo.Prelude.{
  ℕ, ◌+◌, ◌-◌, Bool, true, false, ◌&&◌, ◌||◌, Option, none, some, List, [], ◌∷◌, ◌++◌, Bytes,
  length, take, if◌then◌else◌, ltb, leb, ◌==◌, Result, ok, err,
}
use mathlib.Core.List.{map}
use shudo.State.Sql.{select_where, exists_where, update_where, order_asc}
use shudo.State.Tables.{
  Codec, ChunkRow, Tables, StoredRequest, OutputChunk, StoreError, unknown_request,
  unique_violation, statement_failed, of_request, chunk_of,
}
use shudo.State.Requests.{Disk, has_capacity, get_from}

-- What `AppendOutput` finds outside: the sizes on the disk, and whether SQLite can run its two
-- statements.
pub record AppendIo : Type 0 where
  pub disk : Disk
  pub inserts : Bool
  pub updates : Bool

-- What `AppendOutput` keeps of the data: at most what is left under the limit, and nothing where the
-- database is full. The limit is positive, so `-` stops at 0 where the source sets `remaining` to 0.
unfoldable pub kept_output : Disk → ℕ → ℕ → Bytes → Bytes
kept_output d limit output_bytes bytes =
    let remaining = limit - output_bytes in
    let stored = if ltb remaining (length bytes) then take remaining bytes else bytes in
    if has_capacity d (length stored + 4096) then stored else []

unfoldable pub insert_chunk : ChunkRow → Tables → Result StoreError Tables
insert_chunk k t =
    if length k.bytes == 0
    then ok t
    else if exists_where (λ b. chunk_of k.request_id b && b.sequence == k.sequence) t.output_chunks
    then err unique_violation
    else ok (record t { output_chunks = t.output_chunks ++ k ∷ [] })

-- `UPDATE requests SET output_bytes=output_bytes+n,output_truncated=b WHERE request_id=id`
unfoldable pub count_output : Bytes → ℕ → Bool → Tables → Tables
count_output id n truncated t = record t {
  requests =
      update_where (of_request id)
        (λ r. record r { output_bytes = r.output_bytes + n; output_truncated = truncated })
        t.requests;
}

-- The two statements are not in a transaction: the first failing leaves the tables as they were, the
-- second failing leaves the chunk that the first has inserted.
end_append :
    AppendIo
    → Bytes
    → Bytes
    → Bool
    → Tables
    → Result StoreError Tables
    → Result StoreError (Bool × Bytes) × Tables
unfolding count_output
end_append io id stored truncated t (err e) = (err e, t)
end_append io id stored truncated t (ok t') =
    if io.updates
    then (ok (truncated, stored), count_output id (length stored) truncated t')
    else (err statement_failed, t')

-- The first statement, which does not run where nothing is kept.
unfoldable try_insert : AppendIo → ChunkRow → Tables → Result StoreError Tables
unfolding insert_chunk
try_insert io k t =
    if io.inserts || length k.bytes == 0 then insert_chunk k t else err statement_failed

abbrev pub new_chunk : Bytes → ℕ → Bytes → Bytes → ChunkRow
new_chunk id sequence stream bytes = record {
  request_id = id;
  sequence = sequence;
  stream = stream;
  bytes = bytes;
}

append_to :
    AppendIo
    → Bytes
    → ℕ
    → Bytes
    → Bytes
    → ℕ
    → Tables
    → Result StoreError (Option StoredRequest)
    → Result StoreError (Bool × Bytes) × Tables
unfolding try_insert end_append kept_output
append_to io id sequence stream bytes limit t (err e) = (err e, t)
append_to io id sequence stream bytes limit t (ok none) = (err unknown_request, t)
append_to io id sequence stream bytes limit t (ok (some current)) =
    let stored = kept_output io.disk limit current.output_bytes bytes in
    if current.output_truncated
    then (ok (true, []), t)
    else end_append io id stored (ltb (length stored) (length bytes)) t
        (try_insert io (new_chunk id sequence stream stored) t)

unfoldable pub append_output :
    Codec
    → AppendIo
    → Bytes
    → ℕ
    → Bytes
    → Bytes
    → ℕ
    → Tables
    → Result StoreError (Bool × Bytes) × Tables
unfolding append_to
append_output c io id sequence stream bytes limit t =
    append_to io id sequence stream bytes limit t (get_from c t id)

-- The loop over the rows: `started` says that a chunk was taken, `total` counts its bytes. A limit
-- of 0 is none. The result says whether rows were left.
unfoldable pub collect : ℕ → Bool → ℕ → List OutputChunk → List OutputChunk × Bool
collect limit started total [] = ([], false)
collect limit started total (k ∷ chunks) =
    let rest = collect limit true (total + length k.bytes) chunks in
    if ltb 0 limit && started && ltb limit (total + length k.bytes)
    then ([], true)
    else (k ∷ rest.0, rest.1)

unfoldable pub chunk_fields : ChunkRow → OutputChunk
chunk_fields k = record { sequence = k.sequence; stream = k.stream; bytes = k.bytes }

-- `SELECT ... WHERE request_id=id AND sequence>=after ORDER BY sequence`
unfoldable pub chunks_from : Tables → Bytes → ℕ → List OutputChunk
unfolding chunk_fields
chunks_from t id after = map chunk_fields (
    order_asc (λ (k : ChunkRow). k.sequence)
      (select_where (λ k. chunk_of id k && leb after k.sequence) t.output_chunks))

unfoldable pub output_after : Tables → Bytes → ℕ → ℕ → List OutputChunk × Bool
unfolding chunks_from collect
output_after t id after limit = collect limit false 0 (chunks_from t id after)

-- `Store.Output`
unfoldable pub output : Tables → Bytes → List OutputChunk
unfolding output_after
output t id = (output_after t id 0 0).0
