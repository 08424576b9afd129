-- ===== src/Surface.antt =====
-- DuckDBProxy and CursorProxy of src/dogdb/proxy/connection.py, which fetch alike: what a client
-- fetches of the result that `execute` left. A size that is given to `fetchmany` is not negative.
pub mod Delivery
pub mod Cursor
pub mod Described
pub mod Reported
pub mod Shown
pub mod Iterated
pub mod Native
use dogdb.Prelude.{
  ℕ, ◌+◌, Option, none, some, List, [], ◌∷◌, ◌++◌, if◌then◌else◌, leb, length, take, drop,
  get_elem?,
}
use dogdb.Models.{LogicalResult, Row}

-- `_result` and `_offset`
pub record Surface : Type 0 where
  pub result : LogicalResult
  pub offset : ℕ

-- What `execute` leaves.
abbrev pub opened : LogicalResult → Surface
opened result = record { result = result; offset = 0 }

unfoldable pub fetchall : Surface → List Row × Surface
fetchall s = (drop s.offset s.result.rows, record s { offset = length s.result.rows })

unfoldable pub fetchone : Surface → Option Row × Surface
fetchone s =
    if leb (length s.result.rows) s.offset
    then (none, s)
    else (get_elem? s.result.rows s.offset, record s { offset = s.offset + 1 })

-- `1 if size is None else size`
abbrev pub amount_of : Option ℕ → ℕ
amount_of none = 1
amount_of (some n) = n

unfoldable pub fetchmany : Option ℕ → Surface → List Row × Surface
fetchmany size s =
    let rows = take (amount_of size) (drop s.offset s.result.rows) in
    (rows, record s { offset = s.offset + length rows })
