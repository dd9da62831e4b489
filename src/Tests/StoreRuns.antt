-- ===== src/Tests/StoreRuns.antt =====
-- Runs of the store on the sample tables.
use shudo.Prelude.{◌≡◌, ◌≢◌, refl, true, false, none, some, List, [], ◌∷◌, codes, ok}
use shudo.Model.{waiting, approved, executing, succeeded, denied}
use shudo.State.Tables.{Tables, RequestRow, row_of}
use shudo.State.Requests.{create}
use shudo.State.Approvals.{accept_approval, begin_execution}
use shudo.State.Output.{chunks_from, output_after}
use shudo.State.Output.Pages.{IsPage, output_after-IsPage}
use shudo.State.Sql.{exists_where}
use shudo.State.Startup.{is_unfinished, open_store}
use shudo.State.Startup.Interrupted.{is_executing, open_store-is_executing}
use shudo.State.History.{StoreOp, finishes, expires, recovers, apply_op, run_ops}
use shudo.State.History.Fate.{Fate}
use shudo.State.History.Steps.{apply_op-Fate}
use shudo.State.History.Once.{begin_execution-once}
use shudo.State.History.Final.{run_ops-Audited, Audited}
use shudo.Tests.Sample.{
  tables_with, the_id, the_approval, one_codec, commits, row_with, tables_waiting, tables_approved,
}

-- The request is approved, and starts.
accepted : (accept_approval one_codec commits (codes "t1") the_approval tables_waiting).0 ≡ ok tt
unfolding accept_approval shudo.State.Approvals.is_valid_approval shudo.Prelude.str_eq
    shudo.State.Requests.transaction shudo.State.Sql.exists_where shudo.State.Requests.transition
    shudo.State.Sql.select_first shudo.Model.status_eq shudo.State.Requests.can_move
    shudo.State.Sql.count_where
accepted = refl

begun :
    (begin_execution one_codec commits the_id (some approved) (codes "t2") tables_approved).0
    ≡ ok tt
unfolding begin_execution shudo.State.Requests.transaction shudo.State.Requests.transition
    shudo.State.Sql.select_first shudo.Prelude.str_eq shudo.Model.status_eq
    shudo.State.Requests.can_move shudo.State.Sql.count_where shudo.State.Sql.exists_where
    shudo.State.Sql.update_where
begun = refl

-- The command ends, the clock expires what waits, and the daemon starts again.
abbrev later : List StoreOp
later =
    finishes commits the_id (some 0) [] (codes "t3")
    ∷ expires (codes "t4")
    ∷ recovers (codes "t5")
    ∷ []

begin_execution-once_example :
    (begin_execution one_codec commits the_id (some approved) (codes "t6") (
      run_ops one_codec later
        (begin_execution one_codec commits the_id
          (some approved)
          (codes "t2")
          tables_approved).1)).0
    ≢ ok tt
begin_execution-once_example =
    begin_execution-once one_codec commits commits the_id (codes "t2") (codes "t6") later
      tables_approved begun

apply_op-Fate_example :
    Fate the_id
      (row_with waiting)
      tables_waiting
      (apply_op one_codec (expires (codes "t4")) tables_waiting)
unfolding shudo.State.Sql.select_first shudo.Prelude.str_eq
apply_op-Fate_example =
    apply_op-Fate one_codec (expires (codes "t4")) the_id (row_with waiting) tables_waiting refl

-- The request is there after all that, still approved by the same row.
run_ops-Audited_example :
    (r' : RequestRow) × (row_of the_id (run_ops one_codec later tables_approved) ≡ some r')
    × Audited (row_with approved) r'
unfolding shudo.State.Sql.select_first shudo.Prelude.str_eq shudo.State.Sql.exists_where
run_ops-Audited_example =
    run_ops-Audited one_codec later the_id (row_with approved) tables_approved refl refl

-- Two pieces of output, of three bytes and of two.
abbrev with_output : Tables
with_output = record tables_approved {
  output_chunks =
      record { request_id = the_id; sequence = 0; stream = codes "stdout"; bytes = codes "uid" }
      ∷ record { request_id = the_id; sequence = 1; stream = codes "stdout"; bytes = codes "=0" }
      ∷ [];
}

output_after-IsPage_example :
    IsPage 4
      (chunks_from with_output the_id 0)
      (output_after with_output the_id 0 4).0
      (output_after with_output the_id 0 4).1
output_after-IsPage_example = output_after-IsPage with_output the_id 0 4

open_store-is_executing_example :
    let t' = (open_store commits (codes "t7") (tables_with executing [])).1 in
    (exists_where is_executing t'.requests ≡ false)
    × (exists_where is_unfinished t'.executions ≡ false)
open_store-is_executing_example =
    open_store-is_executing commits (codes "t7") (tables_with executing [])
