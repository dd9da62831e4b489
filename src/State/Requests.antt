-- ===== src/State/Requests.antt =====
-- Reading and moving one request: `getFrom`, `transition`, `Transition`, the transaction wrapper,
-- `Create` and `ExpireOutstanding`.
pub mod Moves
pub mod Creation
pub mod Succeeds
use shudo.Prelude.{
  ℕ, ◌+◌, ◌-◌, ◌/◌, Bool, true, false, not, ◌&&◌, Option, none, some, List, [], ◌∷◌, ◌++◌, Bytes,
  length, if◌then◌else◌, leb, ◌==◌, Result, ok, err, ◌>>=◌,
}
use shudo.Model.{
  Status, created, policy_rejected, queued, synced, waiting, approved, denied, expired, executing,
  succeeded, failed, cancelled, status_eq, status_in, ExecutionRequest,
}
use shudo.State.Sql.{count_where, exists_where, update_where}
use shudo.State.Tables.{
  Codec, RequestRow, Tables, StoredRequest, StoreError, storage_limit, unknown_request,
  concurrent_transition, unique_violation, bad_json, unexpected_status, invalid_transition,
  begin_failed, commit_failed, of_request, row_of,
}

-- The table `transitions`: the statuses that may follow each status.
unfoldable pub transitions : Status → List Status
transitions created = policy_rejected ∷ queued ∷ waiting ∷ executing ∷ cancelled ∷ expired ∷ []
transitions queued = synced ∷ waiting ∷ policy_rejected ∷ cancelled ∷ expired ∷ []
transitions synced = waiting ∷ policy_rejected ∷ cancelled ∷ expired ∷ []
transitions waiting = approved ∷ denied ∷ policy_rejected ∷ cancelled ∷ expired ∷ []
transitions approved = executing ∷ policy_rejected ∷ expired ∷ []
transitions executing = succeeded ∷ failed ∷ []
transitions _ = []

-- `transitions[from][to]`
unfoldable pub can_move : Status → Status → Bool
unfolding transitions status_in
can_move from to = status_in to (transitions from)

abbrev pub stored_request : RequestRow → ExecutionRequest → StoredRequest
stored_request r q = record {
  request = q;
  request_hash = r.request_hash;
  status = r.status;
  output_bytes = r.output_bytes;
  output_truncated = r.output_truncated;
}

decode_row : RequestRow → Option ExecutionRequest → Result StoreError (Option StoredRequest)
decode_row r none = err bad_json
decode_row r (some q) = ok (some (stored_request r q))

scan_row : Codec → Option RequestRow → Result StoreError (Option StoredRequest)
unfolding decode_row
scan_row c none = ok none
scan_row c (some r) = decode_row r (c.unmarshal_request r.request_json)

unfoldable pub get_from : Codec → Tables → Bytes → Result StoreError (Option StoredRequest)
unfolding scan_row
get_from c t id = scan_row c (row_of id t)

abbrev pub has_status : Bytes → Status → RequestRow → Bool
has_status id current r = of_request id r && status_eq r.status current

-- `UPDATE requests SET status=next WHERE request_id=id AND status=current`
abbrev pub move_row : Bytes → Status → Status → Tables → Tables
move_row id next current t = record t {
  requests = update_where (has_status id current) (λ r. record r { status = next }) t.requests;
}

-- The update must change one row.
update_status : Bytes → Status → Status → Tables → Result StoreError Tables
update_status id next current t =
    if count_where (has_status id current) t.requests == 1
    then ok (move_row id next current t)
    else err concurrent_transition

-- The empty text for "any status" is `none`.
unfoldable pub unexpected : Option Status → Status → Bool
unexpected none current = false
unexpected (some s) current = not (status_eq current s)

move_found :
    Bytes → Status → Option Status → Option StoredRequest → Tables → Result StoreError Tables
unfolding update_status unexpected
move_found id next expected none t = err unknown_request
move_found id next expected (some current) t =
    if unexpected expected current.status
    then err (unexpected_status next current.status)
    else if not (can_move current.status next)
    then err (invalid_transition current.status next)
    else update_status id next current.status t

unfoldable pub transition :
    Codec → Bytes → Status → Option Status → Tables → Result StoreError Tables
unfolding move_found get_from
transition c id next expected t = do
  current ← get_from c t id
  move_found id next expected current t

-- What happens to a transaction outside the store: whether it begins and whether it commits.
pub record TxIo : Type 0 where
  pub begins : Bool
  pub commits : Bool

-- An operation of the store: its error, if any, and the tables that it leaves.
abbrev pub Outcome : Type 0
Outcome = Result StoreError (Unit {0}) × Tables

-- `tx.Rollback` on an error, `tx.Commit` otherwise.
end_transaction : TxIo → Tables → Result StoreError Tables → Outcome
end_transaction io t (err e) = (err e, t)
end_transaction io t (ok t') = if io.commits then (ok tt, t') else (err commit_failed, t)

unfoldable pub transaction : TxIo → (Tables → Result StoreError Tables) → Tables → Outcome
unfolding end_transaction
transaction io operation t =
    if io.begins then end_transaction io t (operation t) else (err begin_failed, t)

-- `Store.Transition`
unfoldable pub store_transition : Codec → TxIo → Bytes → Status → Option Status → Tables → Outcome
unfolding transaction
store_transition c io id next expected t = transaction io (transition c id next expected) t

sum_sizes : List (Option ℕ) → ℕ
sum_sizes [] = 0
sum_sizes (none ∷ sizes) = sum_sizes sizes
sum_sizes (some n ∷ sizes) = n + sum_sizes sizes

-- `maxBytes` (0 for no limit), and what `os.Stat` says of the sizes of the database's files. The
-- sizes of files stay far below 2 ^ 63, so no `int64` sum wraps.
pub record Disk : Type 0 where
  pub max_bytes : ℕ
  pub sizes : List (Option ℕ)

unfoldable pub has_capacity : Disk → ℕ → Bool
unfolding sum_sizes
has_capacity d additional =
    if d.max_bytes == 0
    then true
    else leb (sum_sizes d.sizes + additional) (d.max_bytes - d.max_bytes / 10)

insert_request : RequestRow → Tables → Outcome
insert_request r t =
    if exists_where (of_request r.request_id) t.requests
    then (err unique_violation, t)
    else (ok tt, record t { requests = t.requests ++ r ∷ [] })

abbrev pub new_request : ExecutionRequest → Bytes → Bytes → RequestRow
new_request q hash raw = record {
  request_id = q.request_id;
  request_hash = hash;
  request_json = raw;
  status = created;
  created_at = q.created_at;
  expires_at = q.expires_at;
  output_bytes = 0;
  output_truncated = false;
}

create_raw : Disk → ExecutionRequest → Bytes → Option Bytes → Tables → Outcome
unfolding insert_request
create_raw d q hash none t = (err bad_json, t)
create_raw d q hash (some raw) t =
    if not (has_capacity d (length raw + 4096))
    then (err storage_limit, t)
    else insert_request (new_request q hash raw) t

-- `Store.Create`
unfoldable pub create : Codec → Disk → ExecutionRequest → Bytes → Tables → Outcome
unfolding create_raw
create c d q hash t = create_raw d q hash (c.marshal_request q) t

-- A comparison with NULL is not true.
not_after : Option ℕ → Option ℕ → Bool
not_after (some a) (some b) = leb a b
not_after _ _ = false

-- The rows that `ExpireOutstanding` hits at the time `now`.
unfoldable pub is_outdated : Codec → Bytes → RequestRow → Bool
unfolding not_after status_in
is_outdated c now r =
    status_in r.status (queued ∷ synced ∷ waiting ∷ approved ∷ [])
    && not_after (c.julianday r.expires_at) (c.julianday now)

unfoldable pub expire_outstanding : Codec → Bytes → Tables → Tables
expire_outstanding c now t = record t {
  requests = update_where (is_outdated c now) (λ r. record r { status = expired }) t.requests;
}
