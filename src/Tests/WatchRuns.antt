-- ===== src/Tests/WatchRuns.antt =====
-- Two chunks of output, read by a watch and by a command whose first stream breaks.
use shudo.Prelude.{
  ℕ, ◌≡◌, refl, arith, Bool, true, false, Option, none, some, List, [], ◌∷◌, ◌++◌, Bytes, codes,
  take, drop, take-append-drop, sym, Result, All,
}
use mathlib.Core.List.{map}
use shudo.Model.{succeeded}
use shudo.State.Sql.{select_where}
use shudo.State.Tables.{ChunkRow, Tables, StoredRequest, chunk_of}
use shudo.State.Output.{chunks_from}
use shudo.Daemon.Watch.{WatchRound, LocalEvent, StateEvent, output_event, finished_event}
use shudo.Daemon.Watch.Chunks.{Ascending}
use shudo.Cli.Reconcile.{code_unavailable}
use shudo.Cli.Receive.{Attempt, after_stream, run_watch, exit_of}
use shudo.Cli.Receive.Resumed.{Breaks, Unbroken, run_watch-whole}
use shudo.Tests.Sample.{the_id, the_request, the_hash, tables_with}

abbrev two_rows : List ChunkRow
two_rows =
    record { request_id = the_id; sequence = 0; stream = codes "stdout"; bytes = codes "a" }
    ∷ record { request_id = the_id; sequence = 1; stream = codes "stderr"; bytes = codes "b" }
    ∷ []

abbrev ended_tables : Tables
ended_tables = record (tables_with succeeded []) { output_chunks = two_rows }

abbrev ended_item : StoredRequest
ended_item = record {
  request = the_request;
  request_hash = the_hash;
  status = succeeded;
  output_bytes = 0;
  output_truncated = false;
}

ascending : Ascending (select_where (chunk_of the_id) two_rows)
unfolding select_where shudo.Prelude.str_eq
ascending = ((omega arith, tt), (tt, tt))

abbrev quiet_round : WatchRound
quiet_round = record {
  now_text = codes "t2";
  before_output = λ t. t;
  before_state = λ t. t;
  before_approval = λ t. t;
  before_execution = λ t. t;
  accepts = λ event. true;
  context_done = false;
}

abbrev last_event : StateEvent
last_event = record {
  status = succeeded;
  truncated = false;
  decision = codes "approve";
  approved_by = codes "root";
  exit_code = some 0;
  signal = [];
}

abbrev whole_stream : ℕ → List LocalEvent
whole_stream next =
    map output_event (chunks_from ended_tables the_id next) ++ finished_event last_event ∷ []

-- The first stream breaks after one event; the second does not.
abbrev broken : Attempt
broken = record {
  stream = λ next. take 1 (whole_stream next);
  failure = some code_unavailable;
  context_done = false;
  interrupted = false;
  done_in_pause = false;
}

broken-Breaks : Breaks ended_tables the_id last_event ascending broken
unfolding after_stream
broken-Breaks = record {
  cut = λ next. (drop 1 (whole_stream next), sym (take-append-drop 1 (whole_stream next)));
  again = refl;
}

abbrev second_try : Attempt
second_try = record broken { stream = whole_stream }

second_try-Unbroken : Unbroken ended_tables the_id last_event ascending second_try
unfolding after_stream
second_try-Unbroken = record { whole = λ next. refl; retried = refl }

run_watch-whole_example :
    ((run_watch 0 (broken ∷ second_try ∷ [])).written ≡ chunks_from ended_tables the_id 0)
    × ((run_watch 0 (broken ∷ second_try ∷ [])).exit ≡ some (exit_of last_event))
run_watch-whole_example =
    run_watch-whole ended_tables the_id last_event ascending 0 (broken ∷ []) second_try
      (broken-Breaks, tt) second_try-Unbroken
