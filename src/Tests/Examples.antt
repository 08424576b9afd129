-- ===== src/Tests/Examples.antt =====
-- The properties of the faults, the cache, the scheduler and the adapters, each at one input.
use dogdb.Prelude.{
  ◌≤◌, ◌<◌, ◌≡◌, refl, true, false, ◌&&◌, ◌⊎◌, List, [], ◌∷◌, none, some, length, if◌then◌else◌,
  arith, ltb,
}
use dogdb.Prelude.Int.{pos}
use dogdb.Prelude.Dict.{lookup}
use dogdb.Models.{
  on_result, stash, echo, shuffle, tail_chase, int, row_cap_exceeded, index_error, Fault,
}
use dogdb.Exec.{err}
use dogdb.Exec.Gives.{Gives}
use dogdb.Platform.{Platform}
use dogdb.House.{contains}
use dogdb.AutoReturn.{AutoReturnConfig, AutoReturnScheduler, advance}
use dogdb.AutoReturn.Due.{advance-due, is_due_at}
use dogdb.StaleCache
use dogdb.StaleCache.{StaleReadCache}
use dogdb.StaleCache.Bounds.{add-bounded}
use dogdb.Adapter.{Cursor, materialize}
use dogdb.Adapter.Cap.{materialize-cap, has_rows}
use dogdb.Faults.{select_candidate, fires, priority_of}
use dogdb.Faults.Selected.{Selects, eligible_and_fires, Selects-select_candidate}
use dogdb.Faults.Inject.{
  inject_echo, inject_tail_chase, inject_page_hole, inject_wrong_count, inject_shuffle,
  inject_tangled_leash,
}
use dogdb.Faults.Shape.{
  DoublesOne, LosesEnd, LosesStart, inject_echo-rows, inject_tail_chase-rows, inject_page_hole-rows,
}
use dogdb.Faults.Count.{Misreports, inject_wrong_count-off}
use dogdb.Faults.Order.{Reorders, inject_shuffle-Perm}
use dogdb.Faults.Range.{SwapsNames, inject_shuffle-index_error, inject_tangled_leash-columns}
use dogdb.Surface.{opened, fetchall}
use dogdb.Surface.Delivery.{one, many, fetches, fetches_complete}
use dogdb.Prelude.{◌++◌}
use dogdb.Tests.{platform, digest, config_of, policy_of, rows, session, result, decision}

abbrev cursor : Cursor
cursor = record {
  description = some (record { name = "id"; type = int (pos 0) } ∷ []);
  rowcount = pos 0;
  rows = rows;
}

materialize-cap_example : materialize cursor (some 2) ≡ (
    if has_rows cursor && ltb 2 (length cursor.rows)
    then err row_cap_exceeded
    else materialize cursor none)
materialize-cap_example = materialize-cap cursor 2

abbrev two_to_five : AutoReturnConfig
two_to_five = record { min_operations = 2; max_operations = 5 }

-- One treasure is due at tick 3, and the other later.
abbrev scheduler : AutoReturnScheduler
scheduler = record {
  config = two_to_five;
  current_tick = 2;
  next_order = 2;
  scheduled =
      ("a", record { due_tick = 3; order = 1 }) ∷ ("b", record { due_tick = 5; order = 2 }) ∷ [];
}

advance-due_example :
    (contains "a" (advance scheduler 3).1 ≡ is_due_at 3 "a" scheduler.scheduled)
    × (lookup "a" (advance scheduler 3).0.scheduled
        ≡ (if is_due_at 3 "a" scheduler.scheduled then none else lookup "a" scheduler.scheduled))
advance-due_example = advance-due scheduler 3 "a"

abbrev candidates : List Fault
candidates = stash ∷ echo ∷ shuffle ∷ []

Selects-select_candidate_example :
    Selects
      (eligible_and_fires (fires platform (policy_of echo) none decision) candidates)
      (priority_of on_result)
      (select_candidate platform (policy_of echo) none decision candidates on_result)
Selects-select_candidate_example =
    Selects-select_candidate platform (policy_of echo) none decision candidates on_result

inject_echo-rows_example :
    Gives (inject_echo platform (config_of echo) decision result) (DoublesOne result)
inject_echo-rows_example = inject_echo-rows platform (config_of echo) decision result (omega arith)

inject_tail_chase-rows_example :
    Gives (inject_tail_chase platform (config_of tail_chase) decision result) (LosesEnd result)
inject_tail_chase-rows_example =
    inject_tail_chase-rows platform (config_of tail_chase) decision result refl (omega arith)

inject_page_hole-rows_example :
    Gives (inject_page_hole platform (config_of echo) decision result) (LosesStart result)
inject_page_hole-rows_example =
    inject_page_hole-rows platform (config_of echo) decision result (omega arith)

inject_wrong_count-off_example :
    Gives (inject_wrong_count platform (config_of echo) decision result) (Misreports result)
inject_wrong_count-off_example =
    inject_wrong_count-off platform (config_of echo) digest decision result

inject_shuffle-Perm_example :
    Gives (inject_shuffle platform (config_of shuffle) decision result) (Reorders result)
inject_shuffle-Perm_example =
    inject_shuffle-Perm platform (config_of shuffle) decision result (omega arith)
      (λ i h. omega arith)

-- Every draw is one, and `int(1.0 * n)` is n.
abbrev at_one : Platform
at_one = record platform { scale = λ a n. n }

inject_shuffle-index_error_example :
    inject_shuffle at_one (config_of shuffle) decision result session ≡ (err index_error, session)
inject_shuffle-index_error_example =
    inject_shuffle-index_error at_one (config_of shuffle) decision result session (omega arith)
      (omega arith)

inject_tangled_leash-columns_example :
    Gives (inject_tangled_leash platform (config_of echo) decision result) (SwapsNames result)
inject_tangled_leash-columns_example =
    inject_tangled_leash-columns platform (config_of echo) decision result (omega arith)

abbrev cache : StaleReadCache
cache = record (StaleCache.new false 10) {
  total_limit = 1;
  entries =
      record { key = record { template = "t"; parameter = none }; occurrence = 1; result = result }
      ∷ [];
  by_key = (record { template = "t"; parameter = none }, 1 ∷ []) ∷ [];
}

add-bounded_example :
    ((length result.rows ≤ 10)
      × (length (StaleCache.add cache decision result).0.entries ≤ 1)
      × ((StaleCache.add cache decision result).1 ≡ true))
    ⊎ ((10 < length result.rows) × (StaleCache.add cache decision result ≡ (cache, false)))
add-bounded_example = add-bounded cache decision result

fetches_complete_example :
    (fetches (one ∷ many (some 5) ∷ []) (opened result)).0
      ++ (fetchall (fetches (one ∷ many (some 5) ∷ []) (opened result)).1).0
    ≡ rows
fetches_complete_example = fetches_complete (one ∷ many (some 5) ∷ []) result
