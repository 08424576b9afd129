-- ===== src/Adapter.antt =====
-- adapters/base.py, adapters/sqlite.py and adapters/duckdb.py of src/dogdb: a backend's cursor read
-- into a `LogicalResult`. The backend itself is a parameter: its answer to each call.
pub mod Cap
use dogdb.Prelude.{
  ℕ, zero, suc, ◌+◌, ◌-◌, min, String, Option, none, some, List, [], ◌∷◌, ◌++◌, leb, ltb,
  if◌then◌else◌, take, drop, length,
}
use dogdb.Prelude.Int.{ℤ, pos}
use dogdb.Models.{Value, Row, LogicalResult, row_cap_exceeded, backend_error, assertion_error}
use dogdb.Exec.{Result, ok, err}

-- An entry of `cursor.description`: the name and the type.
pub record Column : Type 0 where
  pub name : String
  pub type : Value

-- A cursor of the backend after `execute`, with the rows that it has not delivered yet.
pub record Cursor : Type 0 where
  pub description : Option (List Column)
  pub rowcount : ℤ
  pub rows : List Row

-- The backend's answer to a call: an exception of its own, or a cursor.
pub data Reply : Type 0 where
  raised : ℕ → Reply
  replied : Cursor → Reply

abbrev pub chunk_size : ℕ
chunk_size = 1000

-- A round of the loop of `materialize` after the batch is read: `rows` has the batch, and `again` is
-- the rest of the loop.
unfoldable pub after_batch : ℕ → List Row → List Row → Result (List Row) → Result (List Row)
after_batch cap rows batch again =
    if ltb cap (length rows)
    then err row_cap_exceeded
    else (elim batch [ [] ↦ ok rows | _ ∷ _ ↦ again ])

-- The loop of `materialize` with a cap, on fuel: `rows` are read, `rest` is what `fetchmany` has.
unfoldable pub read_capped : ℕ → ℕ → ℕ → List Row → List Row → Result (List Row)
unfolding after_batch
read_capped zero chunk cap rows rest = err assertion_error
read_capped (suc fuel) chunk cap rows rest =
    let amount = min chunk (cap + 1 - length rows) in
    let batch = take amount rest in
    let again = read_capped fuel chunk cap (rows ++ batch) (drop amount rest) in
    if leb (length rows) cap then after_batch cap (rows ++ batch) batch again else ok rows

abbrev pub column_names : List Column → List String
column_names [] = []
column_names (c ∷ l) = c.name ∷ column_names l

abbrev pub column_types : List Column → List Value
column_types [] = []
column_types (c ∷ l) = c.type ∷ column_types l

abbrev pub result_of : List Column → List Row → LogicalResult
result_of columns rows = record {
  columns = column_names columns;
  rows = rows;
  rowcount = pos (length rows);
  column_types = some (column_types columns);
}

-- The rows that `materialize` reads: all by `fetchall`, or by the loop.
unfoldable pub read_rows : Option ℕ → List Row → Result (List Row)
unfolding read_capped
read_rows none rest = ok rest
read_rows (some cap) rest = read_capped (length rest + 2) chunk_size cap [] rest

-- The result of the rows that were read.
unfoldable pub deliver : List Column → Result (List Row) → Result LogicalResult
deliver columns (ok rows) = ok (result_of columns rows)
deliver columns (err e) = err e

unfoldable pub materialize : Cursor → Option ℕ → Result LogicalResult
materialize cursor row_cap = elim cursor.description [
  | none ↦ ok (record { columns = []; rows = []; rowcount = cursor.rowcount; column_types = none })
  | some columns ↦ deliver columns (read_rows row_cap cursor.rows)
]

-- Adapter.execute, from the backend's answer
unfoldable pub adapt : Option ℕ → Reply → Result LogicalResult
unfolding materialize
adapt row_cap (raised e) = err (backend_error e)
adapt row_cap (replied cursor) = materialize cursor row_cap

-- Adapter.executemany, from the backend's answer
unfoldable pub adapt_many : Reply → Result LogicalResult
adapt_many (raised e) = err (backend_error e)
adapt_many (replied cursor) =
    ok (record { columns = []; rows = []; rowcount = cursor.rowcount; column_types = none })
