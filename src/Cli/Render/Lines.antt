-- ===== src/Cli/Render/Lines.antt =====
-- What a terminal shows of a printed record: its lines, and no control byte.
use shudo.Prelude.{
  ℕ, ◌+◌, inl, inr, ◌≡◌, refl, Bool, true, false, List, [], ◌∷◌, ◌++◌, Bytes, codes, length, take,
  any, All, if◌then◌else◌, leb, is_empty, Bool-cases,
}
use mathlib.Core.List.{map}
use shudo.Model.{status_text}
use shudo.Daemon.Records.{RequestRecord}
use shudo.Cli.Render.{
  is_control, terminal_text, short_id, shown_requester, join, summary_lines, sort_keys,
  variable_line, environment_lines, warning_lines, decision_lines, argument_lines, approval_lines,
  detail_lines, heading_lines, record_lines, print_summary, print_record_to, dash,
}
use shudo.Cli.Render.Clean.{
  IsClean, plain, ◌⧺◌, text, to_decimal-IsClean, All-append, split_lines, split_lines-unlines,
}

module _ (quote : Bytes → Bytes) (clean : (s : Bytes) → IsClean (quote s)) where
  -- A text as `terminalText` shows it.
  terminal_text-IsClean : (s : Bytes) → IsClean (terminal_text quote s)
  unfolding terminal_text
  terminal_text-IsClean s = elim (Bool-cases (any is_control s)) [
    | inl b ↦ rw b (clean s)
    | inr b ↦ rw b (plain b)
  ]

  short_id-IsClean : (s : Bytes) → IsClean (short_id quote s)
  unfolding short_id
  short_id-IsClean s = elim (Bool-cases (leb (length s) 8)) [
    | inl b ↦ rw b (terminal_text-IsClean s)
    | inr b ↦ rw b (terminal_text-IsClean (take 8 s))
  ]

  -- A label, then a text as `terminalText` shows it.
  label-IsClean :
      (name s : Bytes) → any is_control name ≡ false → IsClean (name ++ terminal_text quote s)
  label-IsClean name s p = text name p ⧺ terminal_text-IsClean s

  summary_lines-clean : (r : RequestRecord) → All IsClean (summary_lines quote r)
  unfolding summary_lines any is_control
  summary_lines-clean r = (
    short_id-IsClean r.request_id
        ⧺ text (codes "  ") refl
        ⧺ terminal_text-IsClean (status_text r.status)
        ⧺ text (codes "  ") refl
        ⧺ terminal_text-IsClean (shown_requester r),
    (
      label-IsClean (codes "  ") r.command refl,
      (label-IsClean (codes "  Reason: ") r.reason refl, tt),
    ),
  )

  heading_lines-clean : (r : RequestRecord) → All IsClean (heading_lines quote r)
  unfolding heading_lines any is_control
  heading_lines-clean r = (
    label-IsClean (codes "Request:   ") r.request_id refl,
    (
      label-IsClean (codes "Status:    ") (status_text r.status) refl,
      (
        label-IsClean (codes "Requester: ") (shown_requester r) refl,
        (
          label-IsClean (codes "Command:   ") r.command refl,
          (
            label-IsClean (codes "Reason:    ") r.reason refl,
            (
              label-IsClean (codes "Directory: ") r.cwd refl,
              (
                label-IsClean (codes "Created:   ") r.created_at refl,
                (label-IsClean (codes "Expires:   ") r.expires_at refl, tt),
              ),
            ),
          ),
        ),
      ),
    ),
  )

  variable_lines-clean :
      (entries : List (Bytes × Bytes)) → All IsClean (map (variable_line quote) entries)
  unfolding variable_line any is_control
  variable_lines-clean [] = tt
  variable_lines-clean (entry ∷ entries) = (
    label-IsClean (codes "  ") entry.0 refl ⧺ text (codes "=") refl ⧺ terminal_text-IsClean entry.1,
    variable_lines-clean entries,
  )

  environment_lines-clean :
      (entries : List (Bytes × Bytes)) → All IsClean (environment_lines quote entries)
  unfolding environment_lines any is_control
  environment_lines-clean [] = tt
  environment_lines-clean (entry ∷ entries) =
      (plain refl, variable_lines-clean (sort_keys (entry ∷ entries)))

  warning_lines-clean : (warnings : List Bytes) → All IsClean (warning_lines quote warnings)
  unfolding warning_lines any is_control
  warning_lines-clean [] = tt
  warning_lines-clean (w ∷ warnings) =
      (label-IsClean (codes "Warnings:  ") (join (codes "; ") (w ∷ warnings)) refl, tt)

  decision_reason-IsClean :
      (s : Bytes) → IsClean (if is_empty s then [] else dash ++ terminal_text quote s)
  unfolding is_empty any is_control
  decision_reason-IsClean [] = plain refl
  decision_reason-IsClean (c ∷ s) = label-IsClean dash (c ∷ s) refl

  decision_lines-clean : (r : RequestRecord) → All IsClean (decision_lines quote r)
  unfolding decision_lines any is_control
  decision_lines-clean r = elim (Bool-cases (is_empty r.decided_by)) [
    | inl b ↦ rw b tt
    | inr b ↦ rw b (
      label-IsClean (codes "Decision:  ")
            (if is_empty r.decision then codes "recorded" else r.decision) refl
          ⧺ text (codes " by ") refl
          ⧺ terminal_text-IsClean r.decided_by
          ⧺ decision_reason-IsClean r.decision_reason,
      tt,
    )
  ]

  argument_lines-clean :
      (index : ℕ) (argv : List Bytes) → All IsClean (argument_lines quote index argv)
  unfolding argument_lines any is_control
  argument_lines-clean index [] = tt
  argument_lines-clean index (value ∷ argv) = (
    text (codes "Arg[") refl ⧺ to_decimal-IsClean index ⧺ text (codes "]:    ") refl ⧺ clean value,
    argument_lines-clean (index + 1) argv,
  )

  approval_lines-clean : (id : Bytes) → All IsClean (approval_lines quote id)
  unfolding approval_lines is_empty any is_control
  approval_lines-clean [] = tt
  approval_lines-clean (c ∷ id) = (label-IsClean (codes "Approval:  ") (c ∷ id) refl, tt)

  detail_lines-clean :
      (r : RequestRecord)
      → IsClean r.policy_result
      → IsClean r.request_hash
      → All IsClean (detail_lines quote r)
  unfolding detail_lines any is_control
  detail_lines-clean r p h = (
    label-IsClean (codes "Executable: ") r.executable refl,
    All-append IsClean (argument_lines quote 0 r.argv) _ (argument_lines-clean 0 r.argv) (
      text (codes "UID/GID:   ") refl
          ⧺ to_decimal-IsClean r.requester_uid
          ⧺ text (codes "/") refl
          ⧺ to_decimal-IsClean r.requester_gid,
      (
        text (codes "Policy:    ") refl ⧺ p,
        (text (codes "Hash:      ") refl ⧺ h, approval_lines-clean r.approval_id),
      ),
    ),
  )

  record_lines-clean :
      (r : RequestRecord) (verbose : Bool)
      → IsClean r.policy_result
      → IsClean r.request_hash
      → All IsClean (record_lines quote r verbose)
  unfolding record_lines
  record_lines-clean r verbose p h =
      let h1 = heading_lines quote r in
      let h2 = environment_lines quote r.env in
      let h3 = warning_lines quote r.warnings in
      let h4 = decision_lines quote r in
      All-append IsClean (h1 ++ h2 ++ h3 ++ h4) _
        (All-append IsClean (h1 ++ h2 ++ h3) _
          (All-append IsClean (h1 ++ h2) _
            (All-append IsClean h1 _ (heading_lines-clean r) (environment_lines-clean r.env))
            (warning_lines-clean r.warnings))
          (decision_lines-clean r))
        (details verbose)
    where
      details : (b : Bool) → All IsClean (if b then detail_lines quote r else [])
      details true = detail_lines-clean r p h
      details false = tt

  -- A control character is a byte below 0x20, or 0x7f; the controls of Unicode above it are not among
  -- them. Let the quoted texts, the policy's answer and the hash have none. Then, whatever
  -- bytes the other texts of a record have, the text that is printed of it splits at its line feeds
  -- into the lines that the printer put out, and none of these has a control character; and so does
  -- its summary.
  pub print_record_to-lines :
      (r : RequestRecord) (verbose : Bool)
      → IsClean r.policy_result
      → IsClean r.request_hash
      → (split_lines (print_record_to quote r verbose) ≡ record_lines quote r verbose)
        × All IsClean (record_lines quote r verbose)
        × (split_lines (print_summary quote r) ≡ summary_lines quote r)
        × All IsClean (summary_lines quote r)
  unfolding print_record_to print_summary
  print_record_to-lines r verbose p h =
      let lines = record_lines-clean r verbose p h in
      let short = summary_lines-clean r in
      (
        split_lines-unlines (record_lines quote r verbose) lines,
        lines,
        split_lines-unlines (summary_lines quote r) short,
        short,
      )
