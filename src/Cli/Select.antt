-- ===== src/Cli/Select.antt =====
-- Which request a review is about: `selectRequest` and `pickRequest`.
pub mod Unique
use shudo.Prelude.{
  ℕ, ◌-◌, Bool, true, false, not, ◌&&◌, ◌||◌, Option, none, some, List, [], ◌∷◌, Bytes, codes,
  length, if◌then◌else◌, ltb, has_prefix, str_eq, is_empty, ℤ, pos, negsuc, Result, ok, err,
}
use shudo.Strings.{trim_space}
use shudo.Config.{is_outside}
use shudo.Daemon.Records.{RequestRecord}

-- The terminal `/dev/tty`: none, one whose read failed before any text, or a line of it.
pub data Terminal : Type 0 where
  no_terminal read_failed : Terminal
  line : Bytes → Terminal

pub data SelectError : Type 0 where
  list_failed no_requests prefix_too_short ambiguous_prefix no_match : SelectError
  id_required terminal_failed selection_cancelled invalid_selection : SelectError

-- The record at an index from 0.
unfoldable pub get_elem? {ℓ} : {A : Type ℓ} → List A → ℕ → Option A
get_elem? [] n = none
get_elem? (a ∷ xs) n = if ltb 0 n then get_elem? xs (n - 1) else some a

unfoldable pub pick_at : List RequestRecord → Option ℤ → Result SelectError Bytes
unfolding get_elem? is_outside
pick_at records none = err invalid_selection
pick_at records (some (negsuc n)) = err invalid_selection
pick_at records (some (pos n)) =
    if is_outside (pos 1) (pos (length records)) (pos n)
    then err invalid_selection
    else elim (get_elem? records (n - 1)) [
      | none ↦ err invalid_selection
      | some r ↦ ok r.request_id
    ]

-- `atoi` is `strconv.Atoi`.
unfoldable pub pick_request :
    (Bytes → Option ℤ) → Terminal → List RequestRecord → Result SelectError Bytes
unfolding pick_at str_eq trim_space
pick_request atoi no_terminal records = err id_required
pick_request atoi read_failed records = err terminal_failed
pick_request atoi (line s) records =
    let choice = trim_space s in
    if str_eq choice (codes "q") || str_eq choice (codes "Q")
    then err selection_cancelled
    else pick_at records (atoi choice)

-- The loop over the records. `lower` is `strings.ToLower`.
unfoldable pub match_prefix :
    (Bytes → Bytes)
    → Bytes
    → Option RequestRecord
    → List RequestRecord
    → Result SelectError (Option RequestRecord)
unfolding has_prefix
match_prefix lower selector found [] = ok found
match_prefix lower selector found (r ∷ records) =
    let fresh = match_prefix lower selector (some r) records in
    let rest = match_prefix lower selector found records in
    if has_prefix (lower r.request_id) (lower selector)
    then elim found [ none ↦ fresh | some _ ↦ err ambiguous_prefix ]
    else rest

unfoldable pub matched_id : Result SelectError (Option RequestRecord) → Result SelectError Bytes
matched_id (err e) = err e
matched_id (ok none) = err no_match
matched_id (ok (some r)) = ok r.request_id

-- `selectRequest`, on the answer of `ListRequests`.
unfoldable pub select_request :
    (Bytes → Bytes)
    → (Bytes → Option ℤ)
    → Terminal
    → Bytes
    → Option (List RequestRecord)
    → Result SelectError Bytes
unfolding match_prefix matched_id pick_request is_empty
select_request lower atoi tty selector none = err list_failed
select_request lower atoi tty selector (some []) = err no_requests
select_request lower atoi tty selector (some (r ∷ records)) =
    if is_empty selector
    then pick_request atoi tty (r ∷ records)
    else if ltb (length selector) 4
    then err prefix_too_short
    else matched_id (match_prefix lower selector none (r ∷ records))
