-- ===== src/Cli/Render/Json.antt =====
-- `recordJSON` and `recordsJSON`: the maps that the reviews emit with `--json`, before the library
-- prints them.
use shudo.Prelude.{
  ℕ, ◌≡◌, refl, ap, ◌∙◌, Bool, false, Option, none, some, List, [], ◌∷◌, Bytes, codes, str_eq,
  if◌then◌else◌,
}
use mathlib.Core.List.{map}
use shudo.Model.{
  Status, created, policy_rejected, queued, synced, waiting, approved, denied, expired, executing,
  succeeded, failed, cancelled, status_text,
}
use shudo.Daemon.Records.{RequestRecord}

pub data JsonLeaf : Type 0 where
  text : Bytes → JsonLeaf
  number : ℕ → JsonLeaf
  flag : Bool → JsonLeaf
  texts : List Bytes → JsonLeaf
  pairs : List (Bytes × Bytes) → JsonLeaf

-- An object inside the map has no object inside.
pub data JsonField : Type 0 where
  leaf : JsonLeaf → JsonField
  object : List (Bytes × JsonLeaf) → JsonField

unfoldable pub record_json : RequestRecord → List (Bytes × JsonField)
record_json r =
    (codes "requestId", leaf (text r.request_id))
    ∷ (codes "requestHash", leaf (text r.request_hash))
    ∷ (codes "status", leaf (text (status_text r.status)))
    ∷ (
      codes "requester",
      object (
          (codes "uid", number r.requester_uid)
          ∷ (codes "gid", number r.requester_gid)
          ∷ (codes "username", text r.requester_username)
          ∷ (codes "group", text r.requester_group)
          ∷ []),
    )
    ∷ (codes "executable", leaf (text r.executable))
    ∷ (codes "argv", leaf (texts r.argv))
    ∷ (codes "command", leaf (text r.command))
    ∷ (codes "cwd", leaf (text r.cwd))
    ∷ (codes "env", leaf (pairs r.env))
    ∷ (codes "reason", leaf (text r.reason))
    ∷ (codes "createdAt", leaf (text r.created_at))
    ∷ (codes "expiresAt", leaf (text r.expires_at))
    ∷ (codes "policyResult", leaf (text r.policy_result))
    ∷ (
      codes "risk",
      object (
          (codes "shell", flag r.shell)
          ∷ (codes "interpreter", flag r.interpreter)
          ∷ (codes "script", flag r.script)
          ∷ (codes "warnings", texts r.warnings)
          ∷ []),
    )
    ∷ (codes "decision", leaf (text r.decision))
    ∷ (codes "approvalId", leaf (text r.approval_id))
    ∷ (codes "decidedBy", leaf (text r.decided_by))
    ∷ (codes "decisionReason", leaf (text r.decision_reason))
    ∷ []

unfoldable pub records_json : List RequestRecord → List (List (Bytes × JsonField))
unfolding record_json
records_json records = map record_json records

-- A reader of the map, who looks each key up; what is missing or of another kind reads as nothing.
lookup {ℓ} : {A : Type ℓ} → Bytes → List (Bytes × A) → Option A
unfolding str_eq
lookup key [] = none
lookup key ((k, a) ∷ entries) =
    let rest = lookup key entries in if str_eq k key then some a else rest

abbrev leaf_at : Bytes → List (Bytes × JsonField) → Option JsonLeaf
leaf_at key j = elim (lookup key j) [ some (leaf v) ↦ some v | _ ↦ none ]

abbrev member_at : Bytes → Bytes → List (Bytes × JsonField) → Option JsonLeaf
member_at key name j = elim (lookup key j) [
  | some (object entries) ↦ lookup name entries
  | _ ↦ none
]

abbrev as_text : Option JsonLeaf → Bytes
as_text (some (text s)) = s
as_text _ = []

abbrev as_number : Option JsonLeaf → ℕ
as_number (some (number n)) = n
as_number _ = 0

abbrev as_flag : Option JsonLeaf → Bool
as_flag (some (flag b)) = b
as_flag _ = false

abbrev as_texts : Option JsonLeaf → List Bytes
as_texts (some (texts l)) = l
as_texts _ = []

abbrev as_pairs : Option JsonLeaf → List (Bytes × Bytes)
as_pairs (some (pairs l)) = l
as_pairs _ = []

-- The status that a text names.
status_of : Bytes → Status
unfolding status_text str_eq
status_of s = first (
    created ∷ policy_rejected ∷ queued ∷ synced ∷ waiting ∷ approved ∷ denied ∷ expired ∷ executing
    ∷ succeeded ∷ failed ∷ [])
  where
    first : List Status → Status
    first [] = cancelled
    first (status ∷ others) =
        let rest = first others in if str_eq (status_text status) s then status else rest

status_of-status_text : (s : Status) → status_of (status_text s) ≡ s
unfolding status_of status_text str_eq
status_of-status_text created = refl
status_of-status_text _ = refl

unfoldable pub read_json : List (Bytes × JsonField) → RequestRecord
unfolding lookup status_of
read_json j = record {
  request_id = as_text (leaf_at (codes "requestId") j);
  request_hash = as_text (leaf_at (codes "requestHash") j);
  status = status_of (as_text (leaf_at (codes "status") j));
  requester_uid = as_number (member_at (codes "requester") (codes "uid") j);
  requester_gid = as_number (member_at (codes "requester") (codes "gid") j);
  requester_username = as_text (member_at (codes "requester") (codes "username") j);
  requester_group = as_text (member_at (codes "requester") (codes "group") j);
  executable = as_text (leaf_at (codes "executable") j);
  argv = as_texts (leaf_at (codes "argv") j);
  cwd = as_text (leaf_at (codes "cwd") j);
  env = as_pairs (leaf_at (codes "env") j);
  command = as_text (leaf_at (codes "command") j);
  reason = as_text (leaf_at (codes "reason") j);
  created_at = as_text (leaf_at (codes "createdAt") j);
  expires_at = as_text (leaf_at (codes "expiresAt") j);
  policy_result = as_text (leaf_at (codes "policyResult") j);
  shell = as_flag (member_at (codes "risk") (codes "shell") j);
  interpreter = as_flag (member_at (codes "risk") (codes "interpreter") j);
  script = as_flag (member_at (codes "risk") (codes "script") j);
  warnings = as_texts (member_at (codes "risk") (codes "warnings") j);
  decided_by = as_text (leaf_at (codes "decidedBy") j);
  decision_reason = as_text (leaf_at (codes "decisionReason") j);
  decision = as_text (leaf_at (codes "decision") j);
  approval_id = as_text (leaf_at (codes "approvalId") j);
}

read_json-record_json : (r : RequestRecord) → read_json (record_json r) ≡ r
unfolding read_json record_json lookup str_eq
read_json-record_json r = ap (λ s. record r { status = s }) (status_of-status_text r.status)

-- Nothing of a record is lost in the map that `--json` emits: a reader that looks its keys up has
-- the whole record again, and so it is for every record of a list, in their order.
pub read_json-records_json :
    (records : List RequestRecord) → map read_json (records_json records) ≡ records
unfolding read_json record_json records_json lookup str_eq
read_json-records_json [] = refl
read_json-records_json (r ∷ records) =
    ap (λ x. x ∷ map read_json (records_json records)) (read_json-record_json r)
    ∙ ap (λ rest. r ∷ rest) (read_json-records_json records)
