-- ===== src/Cli/Render.antt =====
-- How a record is shown to root: `terminalText`, `shortID`, `printSummary`, `printRecordTo`, and the
-- question of `confirmApproval`. A text is printed line by line.
pub mod Clean
pub mod Lines
pub mod Json
use shudo.Prelude.{
  ℕ, ◌+◌, Bool, true, not, ◌||◌, Option, none, some, List, [], ◌∷◌, ◌++◌, Bytes, codes, length,
  take, any, if◌then◌else◌, ltb, leb, ◌==◌, is_empty, str_eq, str_lt,
}
use mathlib.Core.List.{map}
use shudo.Strings.{trim_space, to_decimal}
use shudo.Model.{status_text}
use shudo.Daemon.Records.{RequestRecord}
use shudo.Cli.Select.{Terminal, no_terminal, read_failed, line}

-- The runes below 0x20 and the rune 0x7f are one byte in UTF-8, and no other rune has such a byte.
unfoldable pub is_control : ℕ → Bool
is_control byte = ltb byte 0x20 || byte == 0x7f

-- `quote` is `strconv.QuoteToASCII`.
unfoldable pub terminal_text : (Bytes → Bytes) → Bytes → Bytes
unfolding any is_control
terminal_text quote value = if any is_control value then quote value else value

unfoldable pub short_id : (Bytes → Bytes) → Bytes → Bytes
unfolding terminal_text
short_id quote id =
    if leb (length id) 8 then terminal_text quote id else terminal_text quote (take 8 id)

-- `requester` of the three printers.
unfoldable pub shown_requester : RequestRecord → Bytes
unfolding is_empty to_decimal
shown_requester r =
    if is_empty r.requester_username
    then codes "uid:" ++ to_decimal r.requester_uid
    else r.requester_username

-- `strings.Join`
unfoldable pub join : Bytes → List Bytes → Bytes
join separator [] = []
join separator (a ∷ []) = a
join separator (a ∷ b ∷ values) = a ++ separator ++ join separator (b ∷ values)

unfoldable pub summary_lines : (Bytes → Bytes) → RequestRecord → List Bytes
unfolding short_id shown_requester
summary_lines quote r =
    (short_id quote r.request_id
      ++ codes "  "
      ++ terminal_text quote (status_text r.status)
      ++ codes "  "
      ++ terminal_text quote (shown_requester r))
    ∷ (codes "  " ++ terminal_text quote r.command)
    ∷ (codes "  Reason: " ++ terminal_text quote r.reason)
    ∷ []

-- An entry of the list that `pickRequest` shows; the first index is 1.
unfoldable pub choice_lines : (Bytes → Bytes) → ℕ → RequestRecord → List Bytes
unfolding short_id shown_requester to_decimal
choice_lines quote index r =
    (codes "["
      ++ to_decimal index
      ++ codes "] "
      ++ short_id quote r.request_id
      ++ codes "  "
      ++ terminal_text quote (shown_requester r))
    ∷ (codes "    " ++ terminal_text quote r.command)
    ∷ (codes "    Reason: " ++ terminal_text quote r.reason)
    ∷ []

-- `sort.Strings` of the keys of a map, with their values; no two keys are equal.
unfoldable pub insert_key : Bytes × Bytes → List (Bytes × Bytes) → List (Bytes × Bytes)
insert_key entry [] = entry ∷ []
insert_key entry (other ∷ entries) =
    let rest = insert_key entry entries in
    if str_lt other.0 entry.0 then other ∷ rest else entry ∷ other ∷ entries

unfoldable pub sort_keys : List (Bytes × Bytes) → List (Bytes × Bytes)
unfolding insert_key
sort_keys [] = []
sort_keys (entry ∷ entries) = insert_key entry (sort_keys entries)

unfoldable pub variable_line : (Bytes → Bytes) → Bytes × Bytes → Bytes
unfolding terminal_text
variable_line quote entry =
    codes "  " ++ terminal_text quote entry.0 ++ codes "=" ++ terminal_text quote entry.1

unfoldable pub environment_lines : (Bytes → Bytes) → List (Bytes × Bytes) → List Bytes
unfolding variable_line sort_keys
environment_lines quote [] = []
environment_lines quote (entry ∷ entries) =
    codes "Environment:" ∷ map (variable_line quote) (sort_keys (entry ∷ entries))

unfoldable pub warning_lines : (Bytes → Bytes) → List Bytes → List Bytes
unfolding join terminal_text
warning_lines quote [] = []
warning_lines quote (w ∷ warnings) =
    (codes "Warnings:  " ++ terminal_text quote (join (codes "; ") (w ∷ warnings))) ∷ []

-- " — ", in UTF-8.
abbrev pub dash : Bytes
dash = 32 ∷ 226 ∷ 128 ∷ 148 ∷ 32 ∷ []

unfoldable pub decision_lines : (Bytes → Bytes) → RequestRecord → List Bytes
unfolding terminal_text is_empty
decision_lines quote r =
    if is_empty r.decided_by
    then []
    else (codes "Decision:  "
        ++ terminal_text quote (if is_empty r.decision then codes "recorded" else r.decision)
        ++ codes " by "
        ++ terminal_text quote r.decided_by
        ++ (if is_empty r.decision_reason
            then []
            else dash ++ terminal_text quote r.decision_reason))
      ∷ []

unfoldable pub argument_lines : (Bytes → Bytes) → ℕ → List Bytes → List Bytes
unfolding to_decimal
argument_lines quote index [] = []
argument_lines quote index (value ∷ argv) =
    (codes "Arg[" ++ to_decimal index ++ codes "]:    " ++ quote value)
    ∷ argument_lines quote (index + 1) argv

unfoldable pub approval_lines : (Bytes → Bytes) → Bytes → List Bytes
unfolding terminal_text is_empty
approval_lines quote id =
    if is_empty id then [] else (codes "Approval:  " ++ terminal_text quote id) ∷ []

-- What `verbose` adds. The policy's answer and the hash are printed as they are.
unfoldable pub detail_lines : (Bytes → Bytes) → RequestRecord → List Bytes
unfolding argument_lines approval_lines to_decimal
detail_lines quote r =
    ((codes "Executable: " ++ terminal_text quote r.executable) ∷ argument_lines quote 0 r.argv)
    ++ ((codes "UID/GID:   "
          ++ to_decimal r.requester_uid
          ++ codes "/"
          ++ to_decimal r.requester_gid)
        ∷ (codes "Policy:    " ++ r.policy_result)
        ∷ (codes "Hash:      " ++ r.request_hash)
        ∷ approval_lines quote r.approval_id)

unfoldable pub heading_lines : (Bytes → Bytes) → RequestRecord → List Bytes
unfolding terminal_text shown_requester
heading_lines quote r =
    (codes "Request:   " ++ terminal_text quote r.request_id)
    ∷ (codes "Status:    " ++ terminal_text quote (status_text r.status))
    ∷ (codes "Requester: " ++ terminal_text quote (shown_requester r))
    ∷ (codes "Command:   " ++ terminal_text quote r.command)
    ∷ (codes "Reason:    " ++ terminal_text quote r.reason)
    ∷ (codes "Directory: " ++ terminal_text quote r.cwd)
    ∷ (codes "Created:   " ++ terminal_text quote r.created_at)
    ∷ (codes "Expires:   " ++ terminal_text quote r.expires_at)
    ∷ []

unfoldable pub record_lines : (Bytes → Bytes) → RequestRecord → Bool → List Bytes
unfolding heading_lines environment_lines warning_lines decision_lines detail_lines
record_lines quote r verbose =
    heading_lines quote r
    ++ environment_lines quote r.env
    ++ warning_lines quote r.warnings
    ++ decision_lines quote r
    ++ (if verbose then detail_lines quote r else [])

-- Each line, and a line feed after it.
unfoldable pub unlines : List Bytes → Bytes
unlines [] = []
unlines (text ∷ lines) = text ++ b'\n' ∷ unlines lines

unfoldable pub print_summary : (Bytes → Bytes) → RequestRecord → Bytes
unfolding unlines summary_lines
print_summary quote r = unlines (summary_lines quote r)

unfoldable pub print_record_to : (Bytes → Bytes) → RequestRecord → Bool → Bytes
unfolding unlines record_lines
print_record_to quote r verbose = unlines (record_lines quote r verbose)

pub data ConfirmError : Type 0 where
  needs_terminal terminal_failed approval_cancelled : ConfirmError

-- `confirmApproval` after the record is printed: the error, if any.
unfoldable pub confirm_approval : Terminal → Option ConfirmError
unfolding trim_space str_eq
confirm_approval no_terminal = some needs_terminal
confirm_approval read_failed = some terminal_failed
confirm_approval (line s) =
    let choice = trim_space s in
    if not (str_eq choice (codes "y") || str_eq choice (codes "Y"))
    then some approval_cancelled
    else none
