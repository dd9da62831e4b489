-- ===== src/Tests/CommandRuns.antt =====
-- A command of a user, what root is shown of it, and the random identifier that it gets.
use shudo.Prelude.{
  ℕ, ◌*◌, ◌≡◌, refl, true, false, Option, none, some, List, [], ◌∷◌, ◌++◌, Bytes, codes, pos, All,
  any,
}
use mathlib.Core.List.{map}
use shudo.Model.{waiting}
use shudo.Daemon.Records.{RequestRecord, undecided_record}
use shudo.Daemon.Submission.{SubmitRequest}
use shudo.Cli.Select.{line}
use shudo.Cli.Parse.{second}
use shudo.Cli.Render.{is_control, record_lines, print_record_to, summary_lines, print_summary}
use shudo.Cli.Render.Clean.{IsClean, plain, split_lines}
use shudo.Cli.Render.Lines.{print_record_to-lines}
use shudo.Cli.Render.Json.{records_json, read_json, read_json-records_json}
use shudo.Cli.Command.{CommandEnv, run_command}
use shudo.Cli.Command.Sent.{Sendable, run_command-Sendable}
use shudo.Crypto.{uuid}
use shudo.Tests.Sample.{the_hash, the_request}

-- A reason with a line feed and an escape sequence.
abbrev shown_record : RequestRecord
shown_record =
    record (undecided_record (λ s. s)
      (record {
        request = the_request;
        request_hash = the_hash;
        status = waiting;
        output_bytes = 0;
        output_truncated = false;
      })) { reason = codes "ls" ++ b'\n' ∷ 27 ∷ codes "[2J" }

-- What is quoted is hidden.
abbrev hide : Bytes → Bytes
hide s = codes "?"

hidden : (s : Bytes) → IsClean (hide s)
unfolding any is_control
hidden s = plain refl

policy_shown : IsClean shown_record.policy_result
unfolding any is_control undecided_record
policy_shown = plain refl

hash_shown : IsClean shown_record.request_hash
unfolding any is_control undecided_record
hash_shown = plain refl

print_record_to-lines_example :
    (split_lines (print_record_to hide shown_record true) ≡ record_lines hide shown_record true)
    × All IsClean (record_lines hide shown_record true)
    × (split_lines (print_summary hide shown_record) ≡ summary_lines hide shown_record)
    × All IsClean (summary_lines hide shown_record)
print_record_to-lines_example =
    print_record_to-lines hide hidden shown_record true policy_shown hash_shown

read_json-records_json_example :
    map read_json (records_json (shown_record ∷ shown_record ∷ []))
    ≡ shown_record ∷ shown_record ∷ []
read_json-records_json_example = read_json-records_json (shown_record ∷ shown_record ∷ [])

-- The terminal answers the question for a reason, and the daemon does not answer.
abbrev at_terminal : CommandEnv
at_terminal = record {
  duration = λ text. some (pos (180 * second));
  tty = line (codes " who am I" ++ b'\n' ∷ []);
  cwd = some (codes "/");
  connects = true;
  submit = λ q. none;
  attempts = λ response. [];
}

abbrev id_arguments : List Bytes
id_arguments = codes "--timeout" ∷ codes "3m" ∷ codes "id" ∷ codes "-u" ∷ []

abbrev id_sent : SubmitRequest
id_sent = record {
  executable = codes "id";
  argv = codes "-u" ∷ [];
  cwd = codes "/";
  env = [];
  reason = codes "who am I";
  timeout_ms = 180000;
}

sent_id : (run_command at_terminal id_arguments).sent ≡ some id_sent
unfolding run_command shudo.Cli.Parse.parse shudo.Config.int_lt
sent_id = refl

run_command-Sendable_example : Sendable at_terminal id_arguments id_sent
run_command-Sendable_example = run_command-Sendable at_terminal id_arguments id_sent sent_id

abbrev sixteen : Bytes
sixteen =
    0 ∷ 17 ∷ 34 ∷ 51 ∷ 68 ∷ 85 ∷ 102 ∷ 119 ∷ 136 ∷ 153 ∷ 170 ∷ 187 ∷ 204 ∷ 221 ∷ 238 ∷ 255 ∷ []

abbrev source : ℕ → Option Bytes
source n = some sixteen

first_uuid : uuid source ≡ some (codes "00112233-4455-4677-8899-aabbccddeeff")
unfolding uuid
first_uuid = refl
