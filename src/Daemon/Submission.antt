-- ===== src/Daemon/Submission.antt =====
-- `validateSubmit`: what a request must be before it is stored; and `RecoverApproved`.
use shudo.Prelude.{
  ℕ, ◌+◌, Bool, not, ◌||◌, List, [], ◌∷◌, Bytes, length, any, if◌then◌else◌, ltb, ◌==◌, is_empty,
  contains_byte, is_abs, Result, ok, err,
}
use mathlib.Core.List.{map}
use shudo.Strings.{trim_space}
use shudo.State.Tables.{Codec, Tables, StoredRequest}
use shudo.State.Requests.{expire_outstanding}
use shudo.State.Listing.{approved_requests}

-- The fields of the message that the check reads.
pub record SubmitRequest : Type 0 where
  pub executable : Bytes
  pub argv : List Bytes
  pub cwd : Bytes
  pub env : List (Bytes × Bytes)
  pub reason : Bytes
  pub timeout_ms : ℕ

pub data SubmitError : Type 0 where
  invalid_executable invalid_cwd reason_required invalid_bounds : SubmitError
  overrides_not_supported invalid_argument too_large : SubmitError

unfoldable pub total_length : List Bytes → ℕ
total_length [] = 0
total_length (value ∷ argv) = length value + total_length argv

abbrev pub bad_argument : Bytes → Bool
bad_argument value = ltb 131072 (length value) || contains_byte 0 value

-- The loop stops at the first bad argument; the total is compared after it.
unfoldable pub validate_submit : SubmitRequest → Result SubmitError (Unit {0})
unfolding total_length any
validate_submit input =
    if is_empty input.executable
      || ltb 4096 (length input.executable)
      || contains_byte 0 input.executable
    then err invalid_executable
    else if is_empty input.cwd
        || ltb 4096 (length input.cwd)
        || contains_byte 0 input.cwd
        || not (is_abs input.cwd)
    then err invalid_cwd
    else if ltb 4096 (length input.reason)
        || is_empty (trim_space input.reason)
        || contains_byte 0 input.reason
    then err reason_required
    else if ltb input.timeout_ms 1000
        || ltb 86400000 input.timeout_ms
        || ltb 4096 (length input.argv)
    then err invalid_bounds
    else if not (length input.env == 0)
    then err overrides_not_supported
    else if any bad_argument input.argv
    then err invalid_argument
    else if ltb 393216 (total_length input.argv)
    then err too_large
    else ok tt

started_ids : {E : Type 0} → Result E (List StoredRequest) → List Bytes
started_ids (err e) = []
started_ids (ok items) = map (λ (item : StoredRequest). item.request.request_id) items

-- The tables that are left, and the requests that a goroutine each executes.
unfoldable pub recover_approved : Codec → Bytes → Tables → Tables × List Bytes
unfolding started_ids
recover_approved c now t =
    let t' = expire_outstanding c now t in (t', started_ids (approved_requests c t'))
