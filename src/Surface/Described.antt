-- ===== src/Surface/Described.antt =====
-- The description of a result (proxy/connection.py of src/dogdb) that an adapter read from a cursor.
use dogdb.Prelude.{ℕ, ◌≡◌, refl, ap, sym, ◌∙◌, Option, none, some, List, [], ◌∷◌, map}
use dogdb.Models.{LogicalResult, Row}
use dogdb.Exec.{Result, ok, err}
use dogdb.Attempt.{Makes, Makes-ok}
use dogdb.Adapter.{
  Column, Cursor, column_names, column_types, result_of, deliver, read_rows, materialize,
}
use dogdb.Surface.Cursor.{Entry, zip_strict, types_of, describe, description}

-- The entry of a column in the cursor's own description.
abbrev pub entry_of : Column → Entry
entry_of c = (c.name, c.type)

zip_strict-columns :
    (l : List Column) → zip_strict (column_names l) (column_types l) ≡ ok (map entry_of l)
unfolding zip_strict
zip_strict-columns [] = refl
zip_strict-columns (c ∷ l) = rw (zip_strict-columns l) refl

description-result_of :
    (c : Column) (l : List Column) (rows : List Row)
    → description (result_of (c ∷ l) rows) ≡ ok (some (map entry_of (c ∷ l)))
unfolding description describe types_of
description-result_of c l rows = rw (zip_strict-columns (c ∷ l)) refl

description-deliver :
    (c : Column) (l : List Column) (rows : Result (List Row))
    → Makes (λ r. description r ≡ ok (some (map entry_of (c ∷ l)))) (deliver (c ∷ l) rows)
unfolding deliver Makes
description-deliver c l (ok rows) = description-result_of c l rows
description-deliver c l (err e) = tt

materialize-columns :
    (cursor : Cursor) (cap : Option ℕ) (l : List Column)
    → cursor.description ≡ some l
    → materialize cursor cap ≡ deliver l (read_rows cap cursor.rows)
unfolding materialize
materialize-columns cursor cap l h =
    ap
      (λ o. elim o [
        | none ↦
            ok (record { columns = []; rows = []; rowcount = cursor.rowcount; column_types = none })
        | some columns ↦ deliver columns (read_rows cap cursor.rows)
      ])
      h

-- The result that is read from a cursor with columns, with a cap or without: its description has the
-- names and the types of the cursor's own, in order.
pub description-materialize :
    (cursor : Cursor) (cap : Option ℕ) (c : Column) (l : List Column) (r : LogicalResult)
    → cursor.description ≡ some (c ∷ l)
    → materialize cursor cap ≡ ok r
    → description r ≡ ok (some (map entry_of (c ∷ l)))
description-materialize cursor cap c l r columns h =
    Makes-ok (λ r. description r ≡ ok (some (map entry_of (c ∷ l))))
      (deliver (c ∷ l) (read_rows cap cursor.rows))
      (description-deliver c l (read_rows cap cursor.rows))
      (sym (materialize-columns cursor cap (c ∷ l) columns) ∙ h)
