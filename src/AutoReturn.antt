-- ===== src/AutoReturn.antt =====
-- core/auto_return.py of src/dogdb: the scheduler of automatic returns.
pub mod Hold
pub mod Due
pub mod Live
use dogdb.Prelude.{
  ℕ, ◌+◌, ◌-◌, ◌%◌, String, Bool, ◌&&◌, ◌||◌, List, [], ◌∷◌, ◌==◌, ltb, leb, if◌then◌else◌, select,
}
use dogdb.Prelude.Dict.{Dict, insert, erase}
use dogdb.Platform.{Platform, derived_number}
use text.Mathlib.Text.{is_le}
use Prim.Native.String.{compare}

pub record AutoReturnConfig : Type 0 where
  pub min_operations : ℕ
  pub max_operations : ℕ

-- The value of `_scheduled` at a treasure: the tick at which it is due, and its order.
pub record Slot : Type 0 where
  pub due_tick : ℕ
  pub order : ℕ

pub record AutoReturnScheduler : Type 0 where
  pub config : AutoReturnConfig
  pub current_tick : ℕ
  pub next_order : ℕ
  pub scheduled : Dict Slot

abbrev pub new : AutoReturnConfig → AutoReturnScheduler
new config = record { config = config; current_tick = 0; next_order = 0; scheduled = [] }

-- The comparison of two tuples (due_tick, order, treasure_id).
abbrev pub slot_le : String × Slot → String × Slot → Bool
slot_le (i, a) (j, b) =
    ltb a.due_tick b.due_tick
    || (a.due_tick == b.due_tick
        && (ltb a.order b.order || (a.order == b.order && is_le (compare i j))))

unfoldable pub insert_slot : String × Slot → List (String × Slot) → List (String × Slot)
insert_slot a [] = a ∷ []
insert_slot a (b ∷ l) = if slot_le a b then a ∷ b ∷ l else b ∷ insert_slot a l

unfoldable pub sort_slots : List (String × Slot) → List (String × Slot)
unfolding insert_slot
sort_slots [] = []
sort_slots (a ∷ l) = insert_slot a (sort_slots l)

abbrev pub is_due : ℕ → String × Slot → Bool
is_due tick (i, a) = leb a.due_tick tick

-- The sorted list `due` of AutoReturnScheduler.advance.
unfoldable pub due_slots : ℕ → Dict Slot → List (String × Slot)
unfolding sort_slots
due_slots tick scheduled = sort_slots (select (is_due tick) scheduled)

abbrev pub ids : List (String × Slot) → List String
ids [] = []
ids ((i, a) ∷ l) = i ∷ ids l

unfoldable pub erase_all : List String → Dict Slot → Dict Slot
erase_all [] m = m
erase_all (i ∷ l) m = erase_all l (erase i m)

unfoldable pub advance : AutoReturnScheduler → ℕ → AutoReturnScheduler × List String
unfolding due_slots erase_all
advance a tick =
    let due = ids (due_slots tick a.scheduled) in
    (record a { current_tick = tick; scheduled = erase_all due a.scheduled }, due)

-- `span` of AutoReturnScheduler.schedule; the configuration has min_operations ≤ max_operations.
abbrev pub span : AutoReturnConfig → ℕ
span c = c.max_operations - c.min_operations + 1

unfoldable pub hold : Platform → AutoReturnConfig → String → ℕ
unfolding derived_number
hold p c decision_key = c.min_operations + derived_number p decision_key "hold:RETURN" % span c

unfoldable pub schedule : Platform → AutoReturnScheduler → String → String → AutoReturnScheduler × ℕ
unfolding hold
schedule p a treasure_id decision_key =
    let held = hold p a.config decision_key in
    (
      record a {
        next_order = a.next_order + 1;
        scheduled =
            insert treasure_id
              (record { due_tick = a.current_tick + held; order = a.next_order + 1 }) a.scheduled;
      },
      held,
    )

unfoldable pub cancel : AutoReturnScheduler → String → AutoReturnScheduler
cancel a treasure_id = record a { scheduled = erase treasure_id a.scheduled }
