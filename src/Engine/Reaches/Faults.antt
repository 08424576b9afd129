-- ===== src/Engine/Reaches/Faults.antt =====
-- The faults of core/faults.py in src/dogdb, before the call and on its result, are sequences of
-- steps.
use dogdb.Prelude.{ℕ, String, ◌≢◌, Bool, Option, none, some, List, [], ◌∷◌}
use dogdb.Models.{Decision, LogicalResult, Fault, bark, guard_bowl, ignore, sloth, stash, chew}
use dogdb.Platform.{Platform, IsDigest}
use dogdb.EventLog.{Event}
use dogdb.House.{Treasure}
use dogdb.Sql.{SqlKind, SqlClassification, select}
use dogdb.StaleCache.{StaleEntry}
use dogdb.Policy.{Mode, quiet, error, ChewProfile, before_execute_error}
use dogdb.Session.{Config, Session}
use dogdb.Exec.Keeps.{Keeps-pure, Keeps-raise}
use dogdb.Engine.Step.{Part, next, Step}
use dogdb.Engine.Reaches.{Reaches, Reaches-raise_from_event, reach_rules}
use dogdb.Engine.Reaches.Stash.{Reaches-inject_stash}
use dogdb.Faults.Rows.{Cell, eligible}
use dogdb.Faults.Inject.{
  or_index_error, finish_tail_chase, inject_shuffle, inject_echo, inject_tail_chase,
  inject_false_empty, inject_page_hole, inject_tangled_leash, inject_wrong_count, inject_old_bone,
}
use dogdb.Faults.OnResult.{
  choose, reveal, respond, on_result_of, not_fired, block, sleep, take_release, stale_history,
  before_execute_with, run_before_execute, chew_choice, inject_chew, inject, on_result_candidates,
  on_result_sticky, on_result_within, on_result_limit, run_on_result, raise_result_limit_exceeded,
}

-- The faults other than STASH are told from it.
abbrev pub IsOther : Fault → Type 0
IsOther stash = ⊥
IsOther _ = Unit

other_ne : (f : Fault) → IsOther f → f ≢ stash
other_ne f h e = rw e at h

module _ {part : Part} {o : Session} where
  Reaches-or_index_error : {A : Type 0} (x : Option A) → Reaches part o (or_index_error x)
  unfolding or_index_error
  Reaches-or_index_error none = Keeps-raise _
  Reaches-or_index_error (some a) = Keeps-pure a

  Reaches-finish_tail_chase :
      (m : Mode) (e : Event) (result : LogicalResult) (n : ℕ)
      → Reaches part o (finish_tail_chase m e result n)
  unfolding finish_tail_chase
  Reaches-finish_tail_chase quiet e result n = Keeps-pure _
  Reaches-finish_tail_chase error e result n = Reaches-raise_from_event _ _ _ _

  Reaches-sleep : (ms : ℕ) → Reaches part o (sleep ms)
  unfolding sleep
  Reaches-sleep ms = record { at = λ s r. next r (Step.sleep ms) }

  Reaches-take_release : (t : String) → Reaches part o (take_release t)
  unfolding take_release
  Reaches-take_release t = record { at = λ s r. next r (Step.release t) }

  Reaches-stale_history : (d : Decision) → Reaches part o (stale_history d)
  unfolding stale_history
  Reaches-stale_history d = record { at = λ s r. r }

ruleset fault_rules = (
  reach_rules, Reaches-or_index_error, Reaches-finish_tail_chase, Reaches-sleep,
  Reaches-take_release, Reaches-stale_history, other_ne, tt,
)

module _ (p : Platform) (c : Config) {part : Part} {o : Session} where
  Reaches-inject_shuffle :
      (d : Decision) (result : LogicalResult) → Reaches part o (inject_shuffle p c d result)
  unfolding inject_shuffle
  Reaches-inject_shuffle d result = search fault_rules depth 12

  Reaches-inject_echo :
      (d : Decision) (result : LogicalResult) → Reaches part o (inject_echo p c d result)
  unfolding inject_echo
  Reaches-inject_echo d result = search fault_rules depth 12

  Reaches-inject_tail_chase :
      (d : Decision) (result : LogicalResult) → Reaches part o (inject_tail_chase p c d result)
  unfolding inject_tail_chase
  Reaches-inject_tail_chase d result = search fault_rules depth 12

  Reaches-inject_false_empty :
      (d : Decision) (result : LogicalResult) → Reaches part o (inject_false_empty p c d result)
  unfolding inject_false_empty
  Reaches-inject_false_empty d result = search fault_rules depth 12

  Reaches-inject_page_hole :
      (d : Decision) (result : LogicalResult) → Reaches part o (inject_page_hole p c d result)
  unfolding inject_page_hole
  Reaches-inject_page_hole d result = search fault_rules depth 12

  Reaches-inject_tangled_leash :
      (d : Decision) (result : LogicalResult) → Reaches part o (inject_tangled_leash p c d result)
  unfolding inject_tangled_leash
  Reaches-inject_tangled_leash d result = search fault_rules depth 12

  Reaches-inject_wrong_count :
      (d : Decision) (result : LogicalResult) → Reaches part o (inject_wrong_count p c d result)
  unfolding inject_wrong_count
  Reaches-inject_wrong_count d result = search fault_rules depth 12

  Reaches-inject_old_bone :
      (d : Decision) (l : List StaleEntry) → Reaches part o (inject_old_bone p c d l)
  unfolding inject_old_bone
  Reaches-inject_old_bone d l = search fault_rules depth 12

  Reaches-inject_chew :
      (d : Decision) (result : LogicalResult) (f : ChewProfile) (x : Cell)
      → Reaches part o (inject_chew p c d result f x)
  unfolding inject_chew
  Reaches-inject_chew d result f x = search fault_rules depth 12

module _ (p : Platform) (c : Config) (g : IsDigest p) {part : Part} {o : Session} where
  Reaches-inject :
      (f : Option Fault) (d : Decision) (result : LogicalResult)
      (choice : Option (ChewProfile × Cell)) (entries : List StaleEntry) (l : List Fault)
      → Reaches part o (inject p c f d result choice entries l)
  unfolding inject
  Reaches-inject (some chew) d result (some (profile, cell)) entries l =
      Reaches-inject_chew p c d result profile cell
  Reaches-inject (some f) d result choice entries l = search (
    fault_rules, Reaches-inject_stash, Reaches-inject_shuffle, Reaches-inject_echo,
    Reaches-inject_tail_chase, Reaches-inject_false_empty, Reaches-inject_page_hole,
    Reaches-inject_tangled_leash, Reaches-inject_wrong_count, Reaches-inject_old_bone,
  )
  Reaches-inject none d result choice entries l = search fault_rules

  pub Reaches-raise_result_limit_exceeded :
      {A : Type 0} (d : Decision) (n : ℕ)
      → Reaches part o (raise_result_limit_exceeded p c {A = A} d n)
  unfolding raise_result_limit_exceeded
  Reaches-raise_result_limit_exceeded d n = search fault_rules depth 12

  Reaches-on_result_limit :
      (d : Decision) (result : LogicalResult) → Reaches part o (on_result_limit p c d result)
  unfolding on_result_limit
  Reaches-on_result_limit d result = search fault_rules depth 12

  Reaches-on_result_sticky :
      (d : Decision) (result : LogicalResult) (l : List Treasure)
      → Reaches part o (on_result_sticky p c d result l)
  unfolding on_result_sticky
  Reaches-on_result_sticky d result l = search fault_rules depth 12

  Reaches-choose :
      (d : Decision) (l : List (ChewProfile × List Cell)) → Reaches part o (choose p c d l)
  unfolding choose
  Reaches-choose d [] = search fault_rules
  Reaches-choose d (e ∷ l) = search fault_rules depth 12

  Reaches-chew_choice :
      (d : Decision) (result : LogicalResult) → Reaches part o (chew_choice p c d result)
  unfolding chew_choice
  Reaches-chew_choice d result = Reaches-choose d (eligible p c.policy.chew_profiles result.rows)

  Reaches-on_result_candidates :
      (k : SqlClassification) (d : Decision) (result : LogicalResult)
      → Reaches part o (on_result_candidates p c k d result)
  unfolding on_result_candidates
  Reaches-on_result_candidates k d result =
      search (fault_rules, Reaches-chew_choice, Reaches-inject) depth 14

  Reaches-reveal :
      (l : List Treasure) (k : SqlClassification) (d : Decision) (result : LogicalResult)
      → Reaches part o (reveal p c l k d result)
  unfolding reveal
  Reaches-reveal [] k d result = Reaches-on_result_candidates k d result
  Reaches-reveal (t ∷ l) k d result = Reaches-on_result_sticky d result (t ∷ l)

  Reaches-respond :
      (lost : Option Fault) (k : SqlClassification) (d : Decision) (result : LogicalResult)
      → Reaches part o (respond p c lost k d result)
  unfolding respond
  Reaches-respond none k d result = search (fault_rules, Reaches-reveal) depth 12
  Reaches-respond (some f) k d result = search fault_rules depth 12

  Reaches-on_result_of :
      (kind : SqlKind) (k : SqlClassification) (d : Decision) (result : LogicalResult)
      → Reaches part o (on_result_of p c kind k d result)
  unfolding on_result_of on_result_within
  Reaches-on_result_of select k d result =
      search (fault_rules, Reaches-on_result_limit, Reaches-respond) depth 12
  Reaches-on_result_of _ k d result = Keeps-pure result

  pub Reaches-run_on_result :
      (k : SqlClassification) (d : Decision) (result : LogicalResult)
      → Reaches part o (run_on_result p c k d result)
  unfolding run_on_result
  Reaches-run_on_result k d result = Reaches-on_result_of k.kind k d result

  Reaches-not_fired : (b : Bool) (d : Decision) → Reaches part o (not_fired p c b d)
  unfolding not_fired
  Reaches-not_fired b d = search fault_rules

  -- The errors before the call are never those of STASH.
  Reaches-block :
      (f : Fault) (b : Bool) (d : Decision)
      → Reaches part o (block p c (before_execute_error f) f b d)
  unfolding block before_execute_error
  Reaches-block bark b d = search fault_rules depth 12
  Reaches-block guard_bowl b d = search fault_rules depth 12
  Reaches-block ignore b d = search fault_rules depth 12
  Reaches-block _ b d = Reaches-not_fired b d

  Reaches-before_execute_with :
      (f : Option Fault) (b : Bool) (d : Decision) → Reaches part o (before_execute_with p c f b d)
  unfolding before_execute_with
  Reaches-before_execute_with none b d = Reaches-not_fired b d
  Reaches-before_execute_with (some sloth) b d = search fault_rules depth 14
  Reaches-before_execute_with (some f) b d = Reaches-block f b d

  pub Reaches-run_before_execute :
      (b : Bool) (d : Decision) → Reaches part o (run_before_execute p c b d)
  unfolding run_before_execute
  Reaches-run_before_execute b d = record { at = λ s r. (Reaches-before_execute_with _ b d).at s r }
