-- ===== src/Tests/CliRuns.antt =====
-- The command line: its options, the choice of a request, and an answer that was lost.
use shudo.Prelude.{
  ℕ, ◌*◌, ◌≡◌, refl, Bool, true, false, Option, none, some, List, [], ◌∷◌, Bytes, codes, is_empty,
  ℤ, pos, Result, ok, err,
}
use shudo.Model.{approved}
use shudo.State.Tables.{StoredRequest}
use shudo.State.Approvals.{approve_text}
use shudo.Daemon.Decide.{DecisionRequest, DecisionResponse, existing_decision}
use shudo.Daemon.Records.{RequestRecord, request_record, undecided_record}
use shudo.Cli.Parse.{AdminOptions, approve, Options, check_timeout, parse, second}
use shudo.Cli.Parse.RoundTrip.{print_options, parse-print_options}
use shudo.Cli.Reconcile.{decision_response_from_record}
use shudo.Cli.Reconcile.Existing.{Confirms, existing_decision-reconciled}
use shudo.Cli.Select.{no_terminal, select_request}
use shudo.Cli.Select.Unique.{Selected, select_request-Selected}
use shudo.Cli.Reconcile.{code_unavailable}
use shudo.Cli.Admin.{AdminEnv, run_admin}
use shudo.Cli.Admin.Confirmed.{IsConfirmed, run_admin-IsConfirmed}
use shudo.Tests.Sample.{the_id, the_hash, the_request, one_codec, tables_approved}

abbrev three_minutes : Bytes → Option ℤ
three_minutes text = some (pos (180 * second))

abbrev the_options : Options
the_options = record {
  reason = codes "who am I";
  timeout = pos (180 * second);
  detach = false;
  json = true;
  verbose = true;
  command = codes "id" ∷ codes "--json" ∷ [];
}

in_range : check_timeout (three_minutes (codes "3m")) ≡ some the_options.timeout
unfolding check_timeout shudo.Config.int_lt
in_range = refl

parse-print_options_example :
    parse three_minutes (print_options (codes "3m") the_options) ≡ ok the_options
parse-print_options_example =
    parse-print_options three_minutes (codes "3m") the_options (codes "id") (codes "--json" ∷ [])
      in_range refl

abbrev quote : Bytes → Bytes
quote s = s

abbrev approved_item : StoredRequest
approved_item = record {
  request = the_request;
  request_hash = the_hash;
  status = approved;
  output_bytes = 0;
  output_truncated = false;
}

abbrev lost_request : DecisionRequest
lost_request = record { request_id = the_id; request_hash = the_hash; reason = [] }

abbrev lost_response : DecisionResponse
lost_response = record {
  request_id = the_id;
  approval_id = codes "a1";
  status = approved;
  decided_by = codes "root";
}

lost_request-Confirms : Confirms approved_item lost_request approve_text
unfolding is_empty
lost_request-Confirms = record { same_request = refl; same_hash = λ h. refl; some_hash = λ h. refl }

existing :
    existing_decision one_codec approved_item approve_text tables_approved ≡ ok (some lost_response)
unfolding existing_decision shudo.State.Approvals.approval_for shudo.State.Sql.select_first
    shudo.Prelude.str_eq shudo.Daemon.Authority.equal shudo.Daemon.Authority.approval_actor is_empty
existing = refl

said : is_empty approve_text ≡ false
unfolding is_empty
said = refl

numbered : is_empty lost_response.approval_id ≡ false
unfolding is_empty
numbered = refl

reconciled :
    decision_response_from_record
      (some (request_record quote one_codec tables_approved approved_item))
      lost_request
      approve_text
    ≡ ok lost_response
unfolding decision_response_from_record shudo.Prelude.str_eq request_record
    shudo.State.Approvals.approval_for shudo.State.Sql.select_first
reconciled = refl

existing_decision-reconciled_example :
    decision_response_from_record
      (some (request_record quote one_codec tables_approved approved_item))
      lost_request
      approve_text
    ≡ ok lost_response
existing_decision-reconciled_example =
    existing_decision-reconciled quote one_codec tables_approved approved_item lost_request
      approve_text lost_response lost_request-Confirms said numbered existing

abbrev two_records : List RequestRecord
two_records =
    record (undecided_record quote approved_item) { request_id = codes "3f6c0a" }
    ∷ record (undecided_record quote approved_item) { request_id = codes "3f6d0b" }
    ∷ []

chosen :
    select_request (λ s. s) (λ s. none) no_terminal (codes "3f6d") (some two_records)
    ≡ ok (codes "3f6d0b")
unfolding select_request
chosen = refl

some_selector : is_empty (codes "3f6d") ≡ false
unfolding is_empty
some_selector = refl

select_request-Selected_example : Selected (λ s. s) (codes "3f6d") two_records (codes "3f6d0b")
select_request-Selected_example =
    select_request-Selected (λ s. s) (λ s. none) no_terminal (codes "3f6d") two_records
      (codes "3f6d0b") some_selector chosen

-- Root approves `3f6d` by the hash that it has inspected.
abbrev root_review : AdminEnv
root_review = record {
  euid = 0;
  connects = true;
  lower = λ s. s;
  atoi = λ s. none;
  tty = no_terminal;
  list = λ all. some two_records;
  inspect = λ id. some (record (undecided_record quote approved_item) { request_id = id });
  confirms = λ r. false;
  decide = λ operation request. ok lost_response;
  inspect_again = λ id. err code_unavailable;
}

abbrev approve_options : AdminOptions
approve_options = record {
  operation = approve;
  request_id = codes "3f6d";
  reason = [];
  json = true;
  verbose = false;
  confirm_hash = the_hash;
}

abbrev sent_request : DecisionRequest
sent_request = record { request_id = codes "3f6d0b"; request_hash = the_hash; reason = [] }

sent_approval : (run_admin root_review approve_options).sent ≡ some sent_request
unfolding run_admin select_request shudo.Cli.Admin.confirmation undecided_record
sent_approval = refl

run_admin-IsConfirmed_example :
    (root_review.euid ≡ 0)
    × (root_review.connects ≡ true)
    × IsConfirmed root_review approve_options sent_request
run_admin-IsConfirmed_example =
    run_admin-IsConfirmed root_review approve_options sent_request refl sent_approval
