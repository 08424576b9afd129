-- ===== src/Faults/Inject.antt =====
-- The faults on a result (core/faults.py of src/dogdb): `_stash`, `_shuffle`, `_echo`,
-- `_tail_chase`, `_false_empty`, `_page_hole`, `_tangled_leash`, `_wrong_count`, `_old_bone`.
use Prim.Native.String.{◌++◌ as append}
use mathlib.Core.Option
use dogdb.Prelude.{
  ℕ, ◌+◌, ◌-◌, ◌%◌, String, Bool, true, false, Option, none, some, List, [], ◌∷◌, if◌then◌else◌,
  take, drop, length, ◌==◌, ◌||◌, ◌&&◌,
}
use dogdb.Prelude.Int.{ℤ, pos, negsuc, sub_ℕ, max_zero}
use dogdb.Prelude.Show.{show}
use dogdb.Models.{
  LogicalResult, Decision, stash, shuffle, echo, tail_chase, false_empty, page_hole, tangled_leash,
  wrong_count, old_bone, Row, stashed_error, tail_chase_error, index_error,
}
use dogdb.Platform.{Platform, derive, derived_index, deterministic_id, unit_interval, from_bytes}
use dogdb.Prelude.Dict.{Dict}
use dogdb.EventLog.{Event, Detail, num, str, nums}
use dogdb.House.{Treasure, add}
use dogdb.AutoReturn.{schedule}
use dogdb.StaleCache.{StaleEntry}
use dogdb.Policy.{Mode, quiet, error}
use dogdb.Session.{Config, Run}
use dogdb.Exec.{pure, raise, gets, index, ok, ◌>>=◌, ◌>>◌}
use dogdb.Faults.Record.{event, event_id_at, raise_from_event}
use dogdb.Faults.Rows.{remove_at, insert_at, swap, swaps}

-- replace(result, rows=rows, rowcount=len(rows))
abbrev pub with_rows : LogicalResult → List Row → LogicalResult
with_rows result rows = record result { rows = rows; rowcount = pos (length rows) }

-- The value of an operation that raises `IndexError`.
unfoldable pub or_index_error : {A : Type 0} → Option A → Run A
or_index_error none = raise index_error
or_index_error (some a) = pure a

-- HouseLedger.add, on the session's house.
unfoldable pub add_treasure : Treasure → Run Bool
add_treasure t s = (ok (add s.house t).1, record s { house = (add s.house t).0 })

-- `if self.auto_return is not None: self.auto_return.schedule(…)`
unfoldable pub schedule_return : Platform → String → String → Run (Unit {0})
schedule_return p id key s =
    (ok tt, record s { auto_return = Option.map (λ a. (schedule p a id key).0) s.auto_return })

abbrev pub stash_outcome : Mode → String
stash_outcome quiet = "rows_hidden"
stash_outcome error = "read_partial"

-- The end of `_stash`: an exception, or the result without the row.
unfoldable pub finish_stash : Mode → Event → LogicalResult → ℕ → Run LogicalResult
finish_stash error e result row_index = raise_from_event stashed_error e true none
finish_stash quiet e result row_index = pure (with_rows result (remove_at row_index result.rows))

abbrev pub tail_chase_outcome : Mode → String
tail_chase_outcome quiet = "rows_truncated"
tail_chase_outcome error = "read_partial"

-- The end of `_tail_chase`: an exception, or the first rows.
unfoldable pub finish_tail_chase : Mode → Event → LogicalResult → ℕ → Run LogicalResult
finish_tail_chase error e result delivered =
    raise_from_event tail_chase_error e true (some delivered)
finish_tail_chase quiet e result delivered = pure (with_rows result (take delivered result.rows))

abbrev pub stash_details : ℕ → String → Dict Detail
stash_details row_index treasure_id =
    ("row_indices", nums (row_index ∷ [])) ∷ ("treasure_id", str treasure_id) ∷ []

abbrev pub treasure_of : Decision → ℕ → Row → String → String → Treasure
treasure_of d row_index row event_id treasure_id = record {
  treasure_id = treasure_id;
  template_fingerprint = d.template_fingerprint;
  row_index = row_index;
  row = row;
  event_id = event_id;
  parameter_fingerprint = d.parameter_fingerprint;
  occurrence = d.occurrence;
  decision_key = d.decision_key;
}

-- The count that FaultEngine._wrong_count reports, from the bytes that it derives.
unfoldable pub reported_count : ℕ → ℕ → List ℕ → ℤ
reported_count max_delta actual [] = pos actual
reported_count max_delta actual (b ∷ bytes) =
    let magnitude = from_bytes 0 (take 8 bytes) % max_delta + 1 in
    max_zero
      (if actual == 0 || b % 2 == 0 then pos (actual + magnitude) else sub_ℕ actual magnitude)

abbrev number_of : ℤ → ℕ
number_of (pos n) = n
number_of (negsuc n) = 0

abbrev pub treasure_id_at : Platform → Decision → ℕ → String
treasure_id_at p d row_index =
    deterministic_id p d.decision_key (append "treasure:" (show row_index))

module _ (p : Platform) where
  -- The swap that FaultEngine._shuffle takes at an index.
  abbrev pub swap_choice : Decision → ℕ → ℕ
  swap_choice d i =
      p.scale (unit_interval p d.decision_key (append "perm:SHUFFLE:" (show i))) (i + 1)

  abbrev pub rows_eq : List Row → List Row → Bool
  rows_eq [] [] = true
  rows_eq (a ∷ l) (b ∷ m) = p.row_eq a b && rows_eq l m
  rows_eq _ _ = false

  -- `if rows == result.rows: rows[0], rows[1] = rows[1], rows[0]`
  unfoldable pub settle : List Row → List Row → Option (List Row)
  settle original rows = if rows_eq rows original then swap 0 1 rows else some rows

module _ (p : Platform) (c : Config) where
  -- What `_stash` does once the house has the treasure.
  unfoldable pub stashed : Decision → LogicalResult → ℕ → String → Run LogicalResult
  stashed d result row_index treasure_id = do
    schedule_return p treasure_id d.decision_key
    e ← event p c d stash (stash_outcome c.policy.stash_mode) (stash_details row_index treasure_id)
    finish_stash c.policy.stash_mode e result row_index

  -- `_stash` from the treasure on: the house takes it, or the result stays as it is.
  unfoldable pub offer : Decision → LogicalResult → ℕ → Row → String → Run LogicalResult
  offer d result row_index row event_id = do
    added ← add_treasure (treasure_of d row_index row event_id (treasure_id_at p d row_index))
    if added then stashed d result row_index (treasure_id_at p d row_index) else pure result

  -- FaultEngine._stash
  unfoldable pub inject_stash : Decision → LogicalResult → Run LogicalResult
  inject_stash d result = do
    row_index ← derived_index p d "rows:STASH" (length result.rows)
    event_id ← gets (λ s. event_id_at p s.events d.decision_key "STASH")
    row ← index result.rows row_index
    offer d result row_index row event_id

  -- FaultEngine._shuffle
  unfoldable pub inject_shuffle : Decision → LogicalResult → Run LogicalResult
  inject_shuffle d result = do
    swapped ← or_index_error (swaps (swap_choice p d) (length result.rows - 1) result.rows)
    rows ← or_index_error (settle p result.rows swapped)
    event p c d shuffle "rows_reordered" []
    pure (with_rows result rows)

  -- FaultEngine._echo
  unfoldable pub inject_echo : Decision → LogicalResult → Run LogicalResult
  inject_echo d result = do
    row_index ← derived_index p d "rows:ECHO" (length result.rows)
    row ← index result.rows row_index
    event p c d echo "rows_duplicated" (("row_index", num row_index) ∷ [])
    pure (with_rows result (insert_at (row_index + 1) row result.rows))

  -- FaultEngine._tail_chase
  unfoldable pub inject_tail_chase : Decision → LogicalResult → Run LogicalResult
  inject_tail_chase d result = do
    i ← derived_index p d "rows:TAIL_CHASE" (length result.rows)
    let truncated = 1 + i
    let delivered = length result.rows - truncated
    e ←
        event p c d tail_chase (tail_chase_outcome c.policy.tail_chase_mode)
          (("delivered_rows", num delivered) ∷ ("truncated_rows", num truncated) ∷ [])
    finish_tail_chase c.policy.tail_chase_mode e result delivered

  -- FaultEngine._false_empty
  unfoldable pub inject_false_empty : Decision → LogicalResult → Run LogicalResult
  inject_false_empty d result = do
    event p c d false_empty "empty_result" []
    pure (record result { rows = []; rowcount = pos 0 })

  -- FaultEngine._page_hole
  unfoldable pub inject_page_hole : Decision → LogicalResult → Run LogicalResult
  inject_page_hole d result = do
    i ← derived_index p d "rows:PAGE_HOLE" (length result.rows)
    let removed = 1 + i
    event p c d page_hole "page_hole" (("rows_removed", num removed) ∷ [])
    pure (with_rows result (drop removed result.rows))

  -- FaultEngine._tangled_leash
  unfoldable pub inject_tangled_leash : Decision → LogicalResult → Run LogicalResult
  inject_tangled_leash d result = do
    left ← derived_index p d "columns:TANGLED_LEASH" (length result.columns - 1)
    columns ← or_index_error (swap left (left + 1) result.columns)
    event p c d tangled_leash "column_labels_swapped"
        (("column_indices", nums (left ∷ (left + 1) ∷ [])) ∷ [])
    pure (record result { columns = columns })

  -- FaultEngine._wrong_count
  unfoldable pub inject_wrong_count : Decision → LogicalResult → Run LogicalResult
  inject_wrong_count d result = do
    let actual = length result.rows
    let reported =
        reported_count c.policy.wrong_count_max_delta actual
          (derive p d.decision_key "count:WRONG_COUNT")
    event p c d wrong_count "rowcount_misreported"
        (("actual_rowcount", num actual) ∷ ("reported_rowcount", num (number_of reported)) ∷ [])
    pure (record result { rowcount = reported })

  -- FaultEngine._old_bone
  unfoldable pub inject_old_bone : Decision → List StaleEntry → Run LogicalResult
  inject_old_bone d history = do
    i ← derived_index p d "stale:OLD_BONE" (length history)
    selected ← index history i
    event p c d old_bone "stale_read" (("stale_occurrence", num selected.occurrence) ∷ [])
    pure selected.result
