-- ===== src/State/Listing.antt =====
-- The queries over many requests: `byStatuses`, `recent`, `RecentPending`, `Recent`, `Pending`,
-- `All`, `Approved`, `Executed`, `Cancelled` and `OutstandingCounts`.
use mathlib.Core.List.{map}
use shudo.Prelude.{
  ℕ, Bool, false, ◌&&◌, ◌||◌, Option, none, some, List, [], ◌∷◌, Bytes, take, if◌then◌else◌, ltb,
  ◌==◌, Result, ok, err, ◌>>=◌,
}
use shudo.Model.{
  Status, created, policy_rejected, queued, synced, waiting, approved, denied, expired, executing,
  succeeded, failed, cancelled, status_in,
}
use shudo.State.Sql.{select_where, count_where, order_desc}
use shudo.State.Tables.{Codec, RequestRow, Tables, StoredRequest, StoreError, invalid_query}
use shudo.State.Requests.{get_from, expire_outstanding}

keep_found : Option StoredRequest → List StoredRequest → List StoredRequest
keep_found none rest = rest
keep_found (some q) rest = q ∷ rest

-- `Get` of each identifier; a request that is gone is left out.
unfoldable pub get_each : Codec → Tables → List Bytes → Result StoreError (List StoredRequest)
unfolding keep_found
get_each c t [] = ok []
get_each c t (id ∷ ids) = do
  item ← get_from c t id
  rest ← get_each c t ids
  ok (keep_found item rest)

unfoldable pub ids_of : List RequestRow → List Bytes
ids_of rows = map (λ (r : RequestRow). r.request_id) rows

unfoldable pub by_statuses : Codec → List Status → Tables → Result StoreError (List StoredRequest)
unfolding get_each ids_of
by_statuses c statuses t =
    get_each c t
      (ids_of (select_where (λ (r : RequestRow). status_in r.status statuses) t.requests))

unfoldable pub belongs_to : Codec → ℕ → RequestRow → Bool
belongs_to c uid r = elim (c.json_uid r.request_json) [ none ↦ false | some u ↦ u == uid ]

-- The rows that a query for recent requests selects.
unfoldable pub is_selected : Codec → ℕ → Bool → List Status → RequestRow → Bool
unfolding belongs_to status_in
is_selected c uid all_users statuses r =
    status_in r.status statuses && (all_users || belongs_to c uid r)

-- The statuses are a fixed, non-empty list at every call.
unfoldable pub recent_of :
    Codec → ℕ → ℕ → Bool → List Status → Tables → Result StoreError (List StoredRequest)
unfolding get_each ids_of is_selected
recent_of c limit uid all_users statuses t =
    if ltb limit 1 || ltb 1000 limit
    then err invalid_query
    else get_each c t (
        ids_of (
          take limit (
            order_desc (λ (r : RequestRow). r.created_at)
              (select_where (is_selected c uid all_users statuses) t.requests))))

abbrev pub all_statuses : List Status
all_statuses =
    created ∷ queued ∷ synced ∷ waiting ∷ approved ∷ executing ∷ policy_rejected ∷ denied ∷ expired
    ∷ succeeded ∷ failed ∷ cancelled ∷ []

unfoldable pub recent : Codec → ℕ → ℕ → Bool → Tables → Result StoreError (List StoredRequest)
unfolding recent_of
recent c limit uid all_users t = recent_of c limit uid all_users all_statuses t

-- The expiry is written before the query.
unfoldable pub recent_pending :
    Codec → Bytes → ℕ → ℕ → Bool → Tables → Result StoreError (List StoredRequest) × Tables
unfolding recent_of
recent_pending c now limit uid all_users t =
    let t' = expire_outstanding c now t in (recent_of c limit uid all_users (waiting ∷ []) t', t')

unfoldable pub pending : Codec → Bytes → Tables → Result StoreError (List StoredRequest) × Tables
unfolding by_statuses
pending c now t = let t' = expire_outstanding c now t in (by_statuses c (waiting ∷ []) t', t')

unfoldable pub all_requests : Codec → Tables → Result StoreError (List StoredRequest)
unfolding by_statuses
all_requests c t = by_statuses c all_statuses t

unfoldable pub approved_requests : Codec → Tables → Result StoreError (List StoredRequest)
unfolding by_statuses
approved_requests c t = by_statuses c (approved ∷ []) t

unfoldable pub executed_requests : Codec → Tables → Result StoreError (List StoredRequest)
unfolding by_statuses
executed_requests c t = by_statuses c (executing ∷ succeeded ∷ failed ∷ []) t

unfoldable pub cancelled_requests : Codec → Tables → Result StoreError (List StoredRequest)
unfolding by_statuses
cancelled_requests c t = by_statuses c (cancelled ∷ []) t

abbrev pub outstanding : List Status
outstanding = created ∷ queued ∷ synced ∷ waiting ∷ approved ∷ executing ∷ []

-- The count for one user, and that for all.
unfoldable pub outstanding_counts : Codec → ℕ → Tables → ℕ × ℕ
unfolding belongs_to status_in
outstanding_counts c uid t = (
  count_where (λ (r : RequestRow). status_in r.status outstanding && belongs_to c uid r) t.requests,
  count_where (λ (r : RequestRow). status_in r.status outstanding) t.requests,
)
