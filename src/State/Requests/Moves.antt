-- ===== src/State/Requests/Moves.antt =====
-- What a successful `transition` did, and what a transaction can leave.
use shudo.Prelude.{
  ◌≡◌, refl, ◌⊎◌, inl, inr, true, false, Option, none, some, Bytes, arith, Bool-cases,
  if◌then◌else◌, Result, ok, err, ◌>>=◌,
}
use shudo.Model.{Status, ExecutionRequest}
use shudo.State.Tables.{Codec, RequestRow, Tables, StoredRequest, StoreError, begin_failed, row_of}
use shudo.State.Requests.{
  can_move, unexpected, move_row, move_found, get_from, stored_request, decode_row, scan_row,
  transition, TxIo, end_transaction, transaction,
}

-- A request that `getFrom` found: its row, decoded.
pub record Loaded (c : Codec) (id : Bytes) (t : Tables) (q : StoredRequest) : Type 0 where
  pub row : RequestRow
  pub found : row_of id t ≡ some row
  pub decoded : c.unmarshal_request row.request_json ≡ some q.request
  pub same : q ≡ stored_request row q.request

decode_row-Loaded :
    (c : Codec) (id : Bytes) (t : Tables) (r : RequestRow) (q : StoredRequest)
    (m : Option ExecutionRequest)
    → row_of id t ≡ some r
    → c.unmarshal_request r.request_json ≡ m
    → decode_row r m ≡ ok (some q)
    → Loaded c id t q
unfolding decode_row
decode_row-Loaded c id t r q none found d h = cc
decode_row-Loaded c id t r q (some x) found d h = record {
  row = r;
  found = found;
  decoded = ground arith;
  same = ground arith;
}

scan_row-Loaded :
    (c : Codec) (id : Bytes) (t : Tables) (q : StoredRequest) (m : Option RequestRow)
    → row_of id t ≡ m
    → scan_row c m ≡ ok (some q)
    → Loaded c id t q
unfolding scan_row
scan_row-Loaded c id t q none found h = cc
scan_row-Loaded c id t q (some r) found h =
    decode_row-Loaded c id t r q (c.unmarshal_request r.request_json) found refl h

pub get_from-Loaded :
    (c : Codec) (id : Bytes) (t : Tables) (q : StoredRequest)
    → get_from c t id ≡ ok (some q)
    → Loaded c id t q
unfolding get_from
get_from-Loaded c id t q h = scan_row-Loaded c id t q (row_of id t) refl h

-- The move that a transition made: along an edge of the table, from the status of the request,
-- which was expected.
pub record Moved (id : Bytes) (next : Status) (expected : Option Status) (t t' : Tables)
    : Type 0 where
  pub current : Status
  pub row : RequestRow
  pub found : row_of id t ≡ some row
  pub at_current : row.status ≡ current
  pub edge : can_move current next ≡ true
  pub as_expected : unexpected expected current ≡ false
  pub written : t' ≡ move_row id next current t

move_found-Moved :
    (c : Codec) (id : Bytes) (next : Status) (expected : Option Status)
    (found : Option StoredRequest) (t : Tables) {t' : Tables}
    → get_from c t id ≡ ok found
    → move_found id next expected found t ≡ ok t'
    → Moved id next expected t t'
unfolding move_found
move_found-Moved c id next expected none t e h = cc
move_found-Moved c id next expected (some q) t e h =
    let load = get_from-Loaded c id t q e in
    let same = load.same in
    record {
      current = q.status;
      row = load.row;
      found = load.found;
      at_current = ground arith;
      edge = ground arith;
      as_expected = ground arith;
      written = ground arith;
    }

pub transition-Moved :
    (c : Codec) (id : Bytes) (next : Status) (expected : Option Status) (t : Tables) {t' : Tables}
    → transition c id next expected t ≡ ok t'
    → Moved id next expected t t'
unfolding transition
transition-Moved c id next expected t h = go (get_from c t id) refl h
  where
    go :
        (r : Result StoreError (Option StoredRequest)) {t' : Tables}
        → get_from c t id ≡ r
        → (r >>= λ found. move_found id next expected found t) ≡ ok t'
        → Moved id next expected t t'
    go (ok found) g e = move_found-Moved c id next expected found t g e
    go (err x) g e = cc

-- Either nothing was written, or the operation succeeded and its tables were committed.
pub transaction-cases :
    (io : TxIo) (operation : Tables → Result StoreError Tables) (t : Tables)
    → ((transaction io operation t).1 ≡ t)
      ⊎ ((t' : Tables) × (operation t ≡ ok t') × ((transaction io operation t).1 ≡ t'))
unfolding transaction
transaction-cases io operation t = go io (operation t) refl
  where
    go :
        (io : TxIo) (r : Result StoreError Tables)
        → operation t ≡ r
        → ((transaction io operation t).1 ≡ t)
          ⊎ ((t' : Tables) × (operation t ≡ ok t') × ((transaction io operation t).1 ≡ t'))
    go io (ok t') e = elim (Bool-cases io.begins) [
      | inl b ↦ elim (Bool-cases io.commits) [
        | inl k ↦ inr (t', e, rw (b, e, k))
        | inr k ↦ inl (rw (b, e, k))
      ]
      | inr b ↦ inl (rw b)
    ]
    go io (err x) e = inl (ground arith)

-- A transaction that returns no error has run its operation and committed.
pub transaction-ok :
    (io : TxIo) (operation : Tables → Result StoreError Tables) (t : Tables)
    → (transaction io operation t).0 ≡ ok tt
    → operation t ≡ ok (transaction io operation t).1
unfolding transaction end_transaction
transaction-ok io operation t h = go (operation t) refl h
  where
    go :
        (r : Result StoreError Tables)
        → operation t ≡ r
        → (if io.begins then end_transaction io t r else (err begin_failed, t)).0 ≡ ok tt
        → r ≡ ok (if io.begins then end_transaction io t r else (err begin_failed, t)).1
    go (ok t') e g = ground arith
    go (err x) e g = ground arith
