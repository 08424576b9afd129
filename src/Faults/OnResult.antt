-- ===== src/Faults/OnResult.antt =====
-- FaultEngine.before_execute and FaultEngine.on_result (core/faults.py of src/dogdb), with the
-- choice of CHEW.
use dogdb.Prelude.{
  ℕ, ◌+◌, String, Bool, true, false, not, ◌&&◌, Option, none, some, List, [], ◌∷◌, ◌++◌,
  if◌then◌else◌, length, ltb,
}
use dogdb.Models.{
  ErrorKind, LogicalResult, Decision, Fault, sloth, no_drop, stash_error, stash, false_empty,
  tail_chase, page_hole, echo, shuffle, tangled_leash, chew, wrong_count, old_bone, before_execute,
  on_result, no_drop_error, limit_error, assertion_error,
}
use dogdb.Platform.{Platform, derived_index}
use dogdb.EventLog.{num, str}
use dogdb.House.{Treasure, active_for, consume_release}
use dogdb.Sql.{SqlKind, select, SqlClassification}
use dogdb.Stats.{record_intervention}
use dogdb.StaleCache.{StaleEntry, history}
use dogdb.Policy.{
  quiet, error, ChewProfile, profile_name, probability, before_execute_error,
  before_execute_priority,
}
use dogdb.Session.{Config, Run}
use dogdb.Exec.{when, raise, pure, gets, modify, index, ok, ◌>>=◌, ◌>>◌}
use dogdb.Faults.{select_candidate, positive}
use dogdb.Faults.Record.{event, limit_event, debug_decision, raise_from_event}
use dogdb.Faults.Rows.{Cell, eligible, set_cell, hide_rows}
use dogdb.Faults.Inject.{
  or_index_error, with_rows, inject_stash, inject_shuffle, inject_echo, inject_tail_chase,
  inject_false_empty, inject_page_hole, inject_tangled_leash, inject_wrong_count, inject_old_bone,
}

-- time.sleep of a number of milliseconds
unfoldable pub sleep : ℕ → Run (Unit {0})
sleep ms s = (ok tt, record s { slept = s.slept ++ ms ∷ [] })

-- HouseLedger.consume_release, on the session's house
unfoldable pub take_release : String → Run Bool
take_release template s = (
  ok (consume_release s.house template).1,
  record s { house = (consume_release s.house template).0 },
)

-- `self.stale_cache.history(decision) if self.stale_cache is not None else []`
unfoldable pub stale_history : Decision → Run (List StaleEntry)
stale_history d s = (elim s.stale_cache [ none ↦ ok [] | some k ↦ history k d ], s)

unfoldable pub row_indices : List Treasure → List ℕ
row_indices [] = []
row_indices (t ∷ l) = t.row_index ∷ row_indices l

-- `value is not None and value > 0`
abbrev pub is_page : SqlClassification → Bool
is_page k = elim k.top_level_limit [
  | none ↦ false
  | some n ↦ elim k.top_level_offset [ none ↦ false | some m ↦ ltb 0 m ]
]

abbrev pub is_unordered : SqlClassification → Bool
is_unordered k = elim k.has_top_level_order_by [ none ↦ false | some b ↦ not b ]

abbrev pub opt : Bool → List Fault → List Fault
opt true l = l
opt false l = []

module _ (p : Platform) (c : Config) where
  -- FaultEngine.before_execute; true if the delay has been injected
  unfoldable pub not_fired : Bool → Decision → Run Bool
  not_fired record_debug d = do
    when record_debug (debug_decision p c d before_execute_priority)
    pure false

  unfoldable pub block : Option ErrorKind → Fault → Bool → Decision → Run Bool
  block (some kind) fault record_debug d = do
    e ← event p c d fault "not_executed" []
    raise_from_event kind e true none
  block none fault record_debug d = not_fired record_debug d

  unfoldable pub before_execute_with : Option Fault → Bool → Decision → Run Bool
  before_execute_with (some sloth) record_debug d = do
    i ← derived_index p d "delay:SLOTH" c.policy.sloth_max_delay_ms
    event p c d sloth "delayed" (("delay_ms", num (1 + i)) ∷ [])
    sleep (1 + i)
    pure true
  before_execute_with (some fault) record_debug d =
      block (before_execute_error fault) fault record_debug d
  before_execute_with none record_debug d = not_fired record_debug d

  unfoldable pub run_before_execute : Bool → Decision → Run Bool
  run_before_execute record_debug d s =
      before_execute_with
        (select_candidate p c.policy s.mood d before_execute_priority before_execute) record_debug d
        s

  -- The choice of `_chew_choice` among the profiles that have cells.
  unfoldable pub choose :
      Decision → List (ChewProfile × List Cell) → Run (Option (ChewProfile × Cell))
  choose d [] = pure none
  choose d (e ∷ l) = do
    i ← derived_index p d "profile:CHEW" (length (e ∷ l))
    chosen ← index (e ∷ l) i
    j ← derived_index p d "cell:CHEW" (length chosen.1)
    cell ← index chosen.1 j
    pure (some (chosen.0, cell))

  -- `_chew_choice`
  unfoldable pub chew_choice : Decision → LogicalResult → Run (Option (ChewProfile × Cell))
  chew_choice d result = choose d (eligible p c.policy.chew_profiles result.rows)

  -- FaultEngine._chew
  unfoldable pub inject_chew : Decision → LogicalResult → ChewProfile → Cell → Run LogicalResult
  inject_chew d result profile cell = do
    rows ← or_index_error (set_cell result.rows cell)
    event p c d chew "value_corrupted" (
        ("row_index", num cell.row_index)
        ∷ ("column_index", num cell.column_index)
        ∷ ("profile", str (profile_name profile))
        ∷ [])
    pure (record result { rows = rows })

  -- The candidates of on_result, after the two early exits.
  unfoldable pub candidates_of : SqlClassification → LogicalResult → Bool → Bool → Bool → List Fault
  candidates_of k result released can_chew has_history =
      let has_rows = ltb 0 (length result.rows) in
      opt (not released && has_rows)
        ((elim c.policy.stash_mode [ error ↦ stash_error | quiet ↦ stash ]) ∷ [])
      ++ (opt (is_unordered k && ltb 1 (length result.rows)) (shuffle ∷ [])
          ++ (opt has_rows (false_empty ∷ tail_chase ∷ echo ∷ [])
              ++ (opt (has_rows && is_page k) (page_hole ∷ [])
                  ++ (opt (ltb 1 (length result.columns)) (tangled_leash ∷ [])
                      ++ (opt can_chew (chew ∷ [])
                          ++ (wrong_count ∷ opt has_history (old_bone ∷ [])))))))

  -- The fault that was selected.
  unfoldable pub inject :
      Option Fault
      → Decision
      → LogicalResult
      → Option (ChewProfile × Cell)
      → List StaleEntry
      → List Fault
      → Run LogicalResult
  inject (some stash) d result choice entries l = inject_stash p c d result
  inject (some stash_error) d result choice entries l = inject_stash p c d result
  inject (some false_empty) d result choice entries l = inject_false_empty p c d result
  inject (some tail_chase) d result choice entries l = inject_tail_chase p c d result
  inject (some page_hole) d result choice entries l = inject_page_hole p c d result
  inject (some echo) d result choice entries l = inject_echo p c d result
  inject (some shuffle) d result choice entries l = inject_shuffle p c d result
  inject (some tangled_leash) d result choice entries l = inject_tangled_leash p c d result
  inject (some chew) d result (some (profile, cell)) entries l = inject_chew d result profile cell
  inject (some chew) d result none entries l = raise assertion_error
  inject (some wrong_count) d result choice entries l = inject_wrong_count p c d result
  inject (some old_bone) d result choice entries l = inject_old_bone p c d entries
  inject _ d result choice entries l = do debug_decision p c d l; pure result

  -- on_result from the candidates on
  unfoldable pub on_result_candidates :
      SqlClassification → Decision → LogicalResult → Run LogicalResult
  on_result_candidates k d result = do
    choice ← if positive p (probability c.policy chew) then chew_choice d result else pure none
    released ← take_release d.template_fingerprint
    entries ← stale_history d
    let l =
        candidates_of k result released (elim choice [ none ↦ false | some x ↦ true ])
          (ltb 0 (length entries))
    selected ← gets (λ s. select_candidate p c.policy s.mood d l on_result)
    inject selected d result choice entries l

  -- The result without the rows that the house hides.
  unfoldable pub on_result_sticky : Decision → LogicalResult → List Treasure → Run LogicalResult
  on_result_sticky d result sticky = do
    modify (λ s. record s { stats = record_intervention s.stats d.template_fingerprint })
    pure (with_rows result (hide_rows (row_indices sticky) 0 result.rows))

  -- on_result from the look into the house on
  unfoldable pub reveal :
      List Treasure → SqlClassification → Decision → LogicalResult → Run LogicalResult
  reveal [] k d result = on_result_candidates k d result
  reveal (t ∷ l) k d result = on_result_sticky d result (t ∷ l)

  -- on_result from the choice of NO_DROP on
  unfoldable pub respond :
      Option Fault → SqlClassification → Decision → LogicalResult → Run LogicalResult
  respond (some f) k d result = do
    e ← event p c d no_drop "response_lost" []
    raise_from_event no_drop_error e true none
  respond none k d result = do
    sticky ← gets (λ s. active_for s.house d.template_fingerprint)
    reveal sticky k d result

  -- on_result of a query within the limit
  unfoldable pub on_result_within : SqlClassification → Decision → LogicalResult → Run LogicalResult
  on_result_within k d result = do
    lost ← gets (λ s. select_candidate p c.policy s.mood d (no_drop ∷ []) on_result)
    respond lost k d result

  -- `_limit_exceeded`, and its exception if the policy asks for one
  unfoldable pub on_result_limit : Decision → LogicalResult → Run LogicalResult
  on_result_limit d result = do
    e ← limit_event p c d (if c.policy.on_max_rows_error then "error" else "fault_skipped") (
        ("limit", str "max_intervention_rows")
        ∷ ("configured", num c.max_intervention_rows)
        ∷ ("observed", num (length result.rows))
        ∷ [])
    if c.policy.on_max_rows_error then raise_from_event limit_error e false none else pure result

  unfoldable pub on_result_of :
      SqlKind → SqlClassification → Decision → LogicalResult → Run LogicalResult
  on_result_of select k d result =
      if ltb c.max_intervention_rows (length result.rows)
      then on_result_limit d result
      else on_result_within k d result
  on_result_of _ k d result = pure result

  -- FaultEngine.on_result
  unfoldable pub run_on_result : SqlClassification → Decision → LogicalResult → Run LogicalResult
  run_on_result k d result = on_result_of k.kind k d result

  -- raise_result_limit_exceeded
  unfoldable pub raise_result_limit_exceeded : {A : Type 0} → Decision → ℕ → Run A
  raise_result_limit_exceeded d configured = do
    e ← limit_event p c d "error" (
        ("limit", str "max_result_rows")
        ∷ ("configured", num configured)
        ∷ ("observed", str "exceeded")
        ∷ [])
    raise_from_event limit_error e false none
