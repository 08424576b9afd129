-- ===== src/Surface/Cursor.antt =====
-- CursorProxy, `_describe`, `execute` of DuckDBProxy and the end of a `with` block of SQLiteProxy
-- (src/dogdb/proxy/connection.py).
use mathlib.Core.Option
use dogdb.Prelude.{
  ℕ, zero, suc, String, Bool, true, false, ◌&&◌, ◌||◌, not, Option, none, some, List, [], ◌∷◌, ◌++◌,
  any, length, drop, if◌then◌else◌,
}
use dogdb.Prelude.Int.{ℤ, negsuc}
use dogdb.Models.{LogicalResult, Value, null, Row, value_error}
use dogdb.Platform.{Platform}
use dogdb.EventLog.{Event, EventType, fault_injected}
use dogdb.Policy.{is_rowcount_visible}
use dogdb.Session.{Config, Run}
use dogdb.Exec.{Exec, Result, ok, err, pure, gets, raise, ◌>>=◌, ◌>>◌}
use dogdb.Engine.{Params, World}
use dogdb.Engine.Execute.{execute, execute_many}
use dogdb.Surface.{Surface, opened, fetchall, fetchone, fetchmany}

-- An entry of `description`: the name and the type. The five other places are None.
abbrev pub Entry : Type 0
Entry = String × Value

-- [None] * len(names)
unfoldable pub no_types : List String → List Value
no_types [] = []
no_types (s ∷ l) = null ∷ no_types l

-- result.column_types or [None] * len(result.columns)
unfoldable pub types_of : LogicalResult → List Value
unfolding no_types
types_of r = elim r.column_types [
  | none ↦ no_types r.columns
  | some l ↦ (elim l [ [] ↦ no_types r.columns | t ∷ ts ↦ t ∷ ts ])
]

-- zip(names, types, strict=True)
unfoldable pub zip_strict : List String → List Value → Result (List Entry)
zip_strict [] [] = ok []
zip_strict [] (t ∷ types) = err (value_error "zip() argument 2 is longer than argument 1")
zip_strict (n ∷ names) [] = err (value_error "zip() argument 2 is shorter than argument 1")
zip_strict (n ∷ names) (t ∷ types) = elim (zip_strict names types) [
  | err e ↦ err e
  | ok l ↦ ok ((n, t) ∷ l)
]

-- _describe
unfoldable pub describe : LogicalResult → Result (List Entry)
unfolding types_of zip_strict
describe r = zip_strict r.columns (types_of r)

abbrev some_entries : Result (List Entry) → Result (Option (List Entry))
some_entries (ok l) = ok (some l)
some_entries (err e) = err e

abbrev pub has_columns : LogicalResult → Bool
has_columns r = elim r.columns [ [] ↦ false | _ ∷ _ ↦ true ]

-- DuckDBProxy.description and CursorProxy.description
unfoldable pub description : LogicalResult → Result (Option (List Entry))
unfolding describe
description r = if has_columns r then some_entries (describe r) else ok none

-- CursorProxy
pub record CursorProxy : Type 0 where
  pub surface : Surface
  pub reported_rowcount : ℤ

-- LogicalResult([], [], -1)
abbrev pub no_result : LogicalResult
no_result = record { columns = []; rows = []; rowcount = negsuc 0; column_types = none }

abbrev pub new_cursor : CursorProxy
new_cursor = record { surface = opened no_result; reported_rowcount = negsuc 0 }

-- The fetches of CursorProxy.
unfoldable pub cursor_fetchall : CursorProxy → List Row × CursorProxy
cursor_fetchall cur = let (rows, s) = fetchall cur.surface in (rows, record cur { surface = s })

unfoldable pub cursor_fetchone : CursorProxy → Option Row × CursorProxy
cursor_fetchone cur = let (row, s) = fetchone cur.surface in (row, record cur { surface = s })

unfoldable pub cursor_fetchmany : Option ℕ → CursorProxy → List Row × CursorProxy
cursor_fetchmany size cur =
    let (rows, s) = fetchmany size cur.surface in (rows, record cur { surface = s })

-- A round of `for row in cursor`, by what `__next__` gives: none stands for `StopIteration`. `rest` is
-- what the other rounds give.
unfoldable pub next_round :
    Option Row × CursorProxy → Option (List Row × CursorProxy) → Option (List Row × CursorProxy)
next_round (none, cur) rest = some ([], cur)
next_round (some row, cur) rest = Option.map (λ r. (row ∷ r.0, r.1)) rest

-- The rows that `for row in cursor` goes through, and the cursor after it, on fuel (none: it is used
-- up); one round more than there are rows is enough.
unfoldable pub iterate : ℕ → CursorProxy → Option (List Row × CursorProxy)
unfolding next_round cursor_fetchone
iterate zero cur = none
iterate (suc fuel) cur = next_round (cursor_fetchone cur) (iterate fuel (cursor_fetchone cur).1)

abbrev pub is_fault_injected : EventType → Bool
is_fault_injected fault_injected = true
is_fault_injected t = false

-- event.event_type == "fault_injected" and event.fault in ROWCOUNT_VISIBLE_FAULTS
unfoldable pub changes_count : Event → Bool
unfolding is_rowcount_visible
changes_count e =
    is_fault_injected e.event_type
    && (elim e.fault [ none ↦ false | some f ↦ is_rowcount_visible f ])

-- The row count that a cursor reports of a result, by the events of the call.
unfoldable pub reported : List Event → LogicalResult → ℤ
unfolding changes_count
reported new_events r =
    if any changes_count new_events || not (has_columns r) then r.rowcount else negsuc 0

module _ (p : Platform) (c : Config) (w : World) where
  -- CursorProxy.execute, of a session whose log is not on a file: `events()` gives the log in memory.
  -- When the engine raises, the cursor is as it was.
  unfoldable pub cursor_execute : String → Params → Run CursorProxy
  cursor_execute sql params = do
    event_count ← gets (λ s. length s.events.events)
    result ← execute p c w sql params
    events ← gets (λ s. s.events.events)
    pure (record {
      surface = opened result;
      reported_rowcount = reported (drop event_count events) result;
    })

  -- CursorProxy.executemany
  unfoldable pub cursor_execute_many : Run CursorProxy
  cursor_execute_many = do
    result ← execute_many p c w
    pure (record { surface = opened result; reported_rowcount = result.rowcount })

  -- DuckDBProxy.execute and executemany: the surface itself holds the result.
  unfoldable pub duckdb_execute : String → Params → Run Surface
  duckdb_execute sql params = do result ← execute p c w sql params; pure (opened result)

  unfoldable pub duckdb_execute_many : Run Surface
  duckdb_execute_many = do result ← execute_many p c w; pure (opened result)

-- What a `with` block of SQLiteProxy asks of the native connection when it ends.
pub data Action : Type 0 where
  commit rollback : Action

-- The answers of the native connection to `commit()` and to `rollback()`.
pub record Answers : Type 0 where
  pub commit_answer : Result (Unit {0})
  pub rollback_answer : Result (Unit {0})

unfoldable pub ask : Action → Answers → Exec (List Action) (Unit {0})
ask commit a s = (a.commit_answer, s ++ commit ∷ [])
ask rollback a s = (a.rollback_answer, s ++ rollback ∷ [])

-- `except Exception: self.rollback(); raise`
unfoldable pub or_roll_back : Answers → Result (Unit {0}) → Exec (List Action) (Unit {0})
or_roll_back a (ok u) = pure tt
or_roll_back a (err e) = do ask rollback a; raise e

abbrev attempt : Exec (List Action) (Unit {0}) → Exec (List Action) (Result (Unit {0}))
attempt m s = let (r, t) = m s in (ok r, t)

-- SQLiteProxy.__exit__, by whether the block raised.
unfoldable pub exit : Bool → Answers → Exec (List Action) (Unit {0})
exit false a = do answer ← attempt (ask commit a); or_roll_back a answer
exit true a = ask rollback a
