-- ===== src/AutoReturn/Due.antt =====
-- What AutoReturnScheduler.advance (core/auto_return.py of src/dogdb) returns and what it leaves.
use dogdb.Prelude.{
  ℕ, String, ◌≡◌, refl, ap, ◌∙◌, Bool, ◌&&◌, List, [], ◌∷◌, if◌then◌else◌, none, select, any, arith,
  Bool-cases, inl, inr, str_eq, eq_iff,
}
use dogdb.Prelude.Dict.{Dict, lookup, erase, lookup-erase}
use dogdb.House.{contains}
use dogdb.AutoReturn.{
  AutoReturnScheduler, Slot, advance, due_slots, ids, erase_all, is_due, sort_slots, insert_slot,
  slot_le,
}

contains-insert_slot :
    (k : String) (a : String × Slot) (l : List (String × Slot))
    → contains k (ids (insert_slot a l)) ≡ contains k (ids (a ∷ l))
unfolding insert_slot
contains-insert_slot k a [] = refl
contains-insert_slot k a (b ∷ l) = elim (Bool-cases (slot_le a b)) [
  | inl h ↦ rw h refl
  | inr h ↦ rw h (ground (arith, contains-insert_slot k a l))
]

contains-sort_slots :
    (k : String) (l : List (String × Slot)) → contains k (ids (sort_slots l)) ≡ contains k (ids l)
unfolding sort_slots
contains-sort_slots k [] = refl
contains-sort_slots k (a ∷ l) =
    contains-insert_slot k a (sort_slots l) ∙ ground (arith, contains-sort_slots k l)

-- The treasure is scheduled for the tick or an earlier one.
abbrev pub is_due_at : ℕ → String → Dict Slot → Bool
is_due_at tick k m = any (λ e. str_eq e.0 k && is_due tick e) m

contains-select :
    (tick : ℕ) (k : String) (m : Dict Slot)
    → contains k (ids (select (is_due tick) m)) ≡ is_due_at tick k m
contains-select tick k [] = refl
contains-select tick k ((j, a) ∷ m) = elim (Bool-cases (is_due tick (j, a))) [
  | inl h ↦ rw h (ground (arith, contains-select tick k m, eq_iff j k, eq_iff k j))
  | inr h ↦ rw h (ground (arith, contains-select tick k m))
]

lookup-erase_all :
    (k : String) (l : List String) (m : Dict Slot)
    → lookup k (erase_all l m) ≡ (if contains k l then none else lookup k m)
unfolding erase_all
lookup-erase_all k [] m = refl
lookup-erase_all k (i ∷ l) m =
    lookup-erase_all k l (erase i m) ∙ ground (arith, lookup-erase i k m, eq_iff i k, eq_iff k i)

-- A treasure is returned exactly if it is scheduled for the tick or an earlier one; what is returned
-- is no longer scheduled, and every other treasure stays scheduled as it was.
pub advance-due :
    (a : AutoReturnScheduler) (tick : ℕ) (k : String)
    → (contains k (advance a tick).1 ≡ is_due_at tick k a.scheduled)
      × (lookup k (advance a tick).0.scheduled
          ≡ (if is_due_at tick k a.scheduled then none else lookup k a.scheduled))
unfolding advance due_slots
advance-due a tick k =
    let due =
      contains-sort_slots k (select (is_due tick) a.scheduled)
      ∙ contains-select tick k a.scheduled in
    (
      due,
      lookup-erase_all k (ids (sort_slots (select (is_due tick) a.scheduled))) a.scheduled
          ∙ ap (λ b. if b then none else lookup k a.scheduled) due,
    )
