-- ===== src/Tests/Surfaces.antt =====
-- The properties of the surfaces, the counters and the clock, each at one input.

use dogdb.Prelude.{ℕ, ◌<◌, ◌≡◌, refl, true, false, none, some, List, [], ◌∷◌, ◌++◌, arith}
use dogdb.Prelude.Int.{pos}
use dogdb.Models.{int, stash, LogicalResult, backend_error}
use dogdb.EventLog.{Event}
use dogdb.Exec.{Result, ok, err}
use dogdb.Sql.{SqlKind}
use dogdb.Adapter.{Column, Cursor, materialize, deliver, read_rows}
use dogdb.House.{contains}
use dogdb.AutoReturn
use dogdb.AutoReturn.{AutoReturnScheduler, schedule}
use dogdb.AutoReturn.Live.{run_ticks, schedule_returned}
use dogdb.Stats.{unknown_sql}
use dogdb.Stats.Counts.{
  Record, classification, intervention, escape_hatch, passthrough, after, Counts, after-Counts,
}
use dogdb.Engine.{positional}
use dogdb.Engine.Execute.{execute}
use dogdb.Surface.Cursor.{description, cursor_execute, Answers, commit, rollback, exit}
use dogdb.Surface.Cursor.{CursorProxy, iterate, cursor_fetchone}
use dogdb.Surface.Delivery.{left_over}
use dogdb.Surface.Iterated.{iterate_complete}
use dogdb.Surface.Described.{entry_of, description-materialize}
use dogdb.Surface.Reported.{IsAnswered, cursor_execute-reported, exit_lem}
use dogdb.Session.{Session}
use dogdb.Tests.{platform, digest, config_of, world, session, rows}

abbrev scheduler : AutoReturnScheduler
scheduler = AutoReturn.new (record { min_operations = 2; max_operations = 3 })

schedule_returned_example :
    (contains "t" (run_ticks 3 0 (schedule platform scheduler "t" "key").0).1 ≡ true)
    × ((n : ℕ)
        → n < 2
        → contains "t" (run_ticks n 0 (schedule platform scheduler "t" "key").0).1 ≡ false)
schedule_returned_example =
    schedule_returned platform scheduler "t" "key"
      (record { positive = omega arith; ordered = omega arith }) refl

abbrev records : List Record
records =
    classification "f" SqlKind.select
    ∷ intervention "f"
    ∷ escape_hatch "cursor"
    ∷ passthrough unknown_sql
    ∷ []

after-Counts_example : Counts records (after records)
after-Counts_example = after-Counts records

abbrev column : Column
column = record { name = "id"; type = int (pos 4) }

abbrev cursor : Cursor
cursor = record { description = some (column ∷ []); rowcount = pos 0; rows = rows }

abbrev result : LogicalResult
result = record {
  columns = "id" ∷ [];
  rows = rows;
  rowcount = pos 3;
  column_types = some (int (pos 4) ∷ []);
}

description-materialize_example : description result ≡ ok (some (entry_of column ∷ []))
unfolding materialize deliver read_rows
description-materialize_example = description-materialize cursor none column [] result refl refl

-- What the engine and the cursor make of a query.
abbrev of_engine : Result LogicalResult × Session
of_engine = execute platform (config_of stash) world "select 1" (positional []) session

abbrev of_cursor : Result CursorProxy × Session
of_cursor = cursor_execute platform (config_of stash) world "select 1" (positional []) session

cursor_execute-reported_example :
    (added : List Event) × (of_engine.1.events.events ≡ [] ++ added)
    × (of_cursor.1 ≡ of_engine.1)
    × IsAnswered added of_engine.0 of_cursor.0
cursor_execute-reported_example =
    cursor_execute-reported platform (config_of stash) world digest "select 1" (positional [])
      session

-- A commit that is refused.
abbrev answers : Answers
answers = record { commit_answer = err (backend_error 5); rollback_answer = ok tt }

exit_lem_example :
    (exit true answers [] ≡ (ok tt, rollback ∷ []))
    × (exit false answers [] ≡ (err (backend_error 5), commit ∷ rollback ∷ []))
exit_lem_example = exit_lem answers []

-- A cursor of which one row was fetched.
abbrev half_read : CursorProxy
half_read = record { surface = record { result = result; offset = 1 }; reported_rowcount = pos 3 }

iterate_complete_example :
    (end : CursorProxy) × (iterate 3 half_read ≡ some (left_over half_read.surface, end))
    × ((cursor_fetchone end).0 ≡ none)
iterate_complete_example = iterate_complete 3 half_read (omega arith)
