-- ===== src/Surface/Native.antt =====
-- The attributes of the native connection that a surface passes on: _native_passthrough_or_guidance and
-- `__getattr__` (proxy/connection.py of src/dogdb), with the names of the adapters.
use dogdb.Prelude.{
  ◌+◌, ◌≡◌, refl, String, Bool, true, false, Option, none, some, List, [], ◌∷◌, if◌then◌else◌, any,
  str_eq,
}
use dogdb.Models.{Value, attribute_error}
use dogdb.Stats.{record_escape_hatch, count_at}
use dogdb.Stats.Counts.{count_at-bump}
use dogdb.Session.{Session, Run}
use dogdb.Exec.{Result, ok, err, modify, ◌>>◌, exec}
use dogdb.Wrap.{Backend, sqlite, duckdb}

-- sql_capable_attrs
abbrev pub sql_capable_attrs : Backend → List String
sql_capable_attrs sqlite = "cursor" ∷ "execute" ∷ "executemany" ∷ "executescript" ∷ []
sql_capable_attrs duckdb = "cursor" ∷ "execute" ∷ "executemany" ∷ "query" ∷ "sql" ∷ "table" ∷ []

abbrev pub is_sql_capable : Backend → String → Bool
is_sql_capable b name = any (str_eq name) (sql_capable_attrs b)

-- An attribute of the native connection: a value, or a function whose calls are counted under a name.
pub data Attribute : Type 0 where
  value : Attribute
  counted : String → Attribute

-- _native_passthrough_or_guidance. `native` is `getattr` of the connection: none if it raises
-- `AttributeError`, and whether what it gives is callable. None is `(False, None)`.
unfoldable pub native_passthrough_or_guidance :
    Backend → Bool → (String → Option Bool) → String → Result (Option Attribute)
native_passthrough_or_guidance b true native name = elim (native name) [
  | none ↦ err attribute_error
  | some callable ↦ (elim callable [
    | false ↦ ok (some value)
    | true ↦ ok (some (counted (if is_sql_capable b name then name else "other")))
  ])
]
native_passthrough_or_guidance b false native name =
    if is_sql_capable b name then err attribute_error else ok none

-- What `__getattr__` makes of it.
unfoldable pub handled : Result (Option Attribute) → Result Attribute
handled (ok (some a)) = ok a
handled (ok none) = err attribute_error
handled (err e) = err e

abbrev pub is_cursor_name : String → Bool
is_cursor_name name =
    any (str_eq name) ("fetchall" ∷ "fetchone" ∷ "fetchmany" ∷ "description" ∷ "rowcount" ∷ [])

-- SQLiteProxy.__getattr__ and DuckDBProxy.__getattr__
unfoldable pub getattr : Backend → Bool → (String → Option Bool) → String → Result Attribute
unfolding handled native_passthrough_or_guidance
getattr sqlite allow native name =
    if is_cursor_name name
    then err attribute_error
    else handled (native_passthrough_or_guidance sqlite allow native name)
getattr duckdb allow native name = handled (native_passthrough_or_guidance duckdb allow native name)

-- `call_native`, with the answer of the native function
unfoldable pub call_native : String → Result Value → Run Value
call_native bucket answer = do
  modify (λ s. record s { stats = record_escape_hatch s.stats bucket })
  λ s. (answer, s)

-- A call of a native function, whether it returns or raises, adds one to the count under the name that
-- the surface gave it, and to no other.
pub call_native_counted :
    (bucket : String) (answer : Result Value) (s : Session) (k : String)
    → count_at k (call_native bucket answer s).1.stats.escape_hatches ≡ (
        if str_eq bucket k
        then count_at k s.stats.escape_hatches + 1
        else count_at k s.stats.escape_hatches)
unfolding exec call_native record_escape_hatch
call_native_counted bucket answer s k = count_at-bump k bucket s.stats.escape_hatches refl
