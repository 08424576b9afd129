-- ===== src/Faults.antt =====
-- core/faults.py of src/dogdb: which fault fires. The children have the faults themselves.
pub mod Record
pub mod Rows
pub mod Inject
pub mod OnResult
pub mod Selected
pub mod Stashed
pub mod Range
pub mod Order
pub mod Count
pub mod Shape
pub mod Cells
pub mod Chewed
use Prim.Native.String.{◌++◌}
use dogdb.Prelude.{
  ℕ, String, Bool, true, false, ◌&&◌, ◌||◌, not, Option, none, some, List, [], ◌∷◌, if◌then◌else◌,
  any,
}
use dogdb.Models.{Float, Fault, fault_eq, fault_name, Decision, Phase, before_execute, on_result}
use dogdb.Platform.{Platform, unit_interval}
use dogdb.Mood.{MoodEngine, multiplier}
use dogdb.Policy.{
  FaultPolicy, base_fault, probability, known_faults, before_execute_priority, on_result_priority,
}

-- The probability of a fault under the mood.
abbrev pub effective : Platform → FaultPolicy → Option MoodEngine → Fault → Float
effective p policy mood fault = elim mood [
  | none ↦ probability policy fault
  | some m ↦ p.mul (probability policy fault) (multiplier p m (base_fault fault))
]

-- FaultEngine._fires
unfoldable pub fires : Platform → FaultPolicy → Option MoodEngine → Decision → Fault → Bool
unfolding unit_interval fault_name
fires p policy mood d fault =
    let chance = effective p policy mood fault in
    if p.le chance p.zero_float
    then false
    else p.le p.one_float chance
      || p.lt (unit_interval p d.decision_key ("fire:" ++ fault_name (base_fault fault))) chance

-- `probability > 0`
abbrev pub positive : Platform → Float → Bool
positive p x = p.lt p.zero_float x

-- FaultEngine.has_effective_weight: a float is true unless it equals zero.
unfoldable pub has_effective_weight : Platform → FaultPolicy → Option MoodEngine → List Fault → Bool
has_effective_weight p policy mood candidates =
    any (λ f. not (p.eq (policy.probabilities f) p.zero_float)) known_faults
    && any (λ f. positive p (effective p policy mood f)) candidates

abbrev pub mem_fault : Fault → List Fault → Bool
mem_fault f l = any (fault_eq f) l

-- next((fault for fault in priority if …), None)
unfoldable pub first_firing : (Fault → Bool) → List Fault → List Fault → Option Fault
first_firing fires candidates [] = none
first_firing fires candidates (f ∷ l) =
    if mem_fault f candidates && fires f then some f else first_firing fires candidates l

abbrev pub priority_of : Phase → List Fault
priority_of before_execute = before_execute_priority
priority_of _ = on_result_priority

-- FaultEngine.select_candidate
unfoldable pub select_candidate :
    Platform → FaultPolicy → Option MoodEngine → Decision → List Fault → Phase → Option Fault
unfolding first_firing fires
select_candidate p policy mood d candidates phase =
    first_firing (fires p policy mood d) candidates (priority_of phase)
