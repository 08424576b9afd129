-- ===== src/Policy.antt =====
-- core/faults.py of src/dogdb: the taxonomy, the policy and the orders of priority.
use dogdb.Prelude.{ℕ, String, Bool, true, false, Option, none, some, List, [], ◌∷◌, any}
use dogdb.Models.{
  Fault, bark, guard_bowl, ignore, sloth, no_drop, stash_error, stash, false_empty, tail_chase,
  page_hole, echo, shuffle, tangled_leash, chew, wrong_count, old_bone, Float, ErrorKind,
  bark_error, busy_error, ignored_error,
}

pub record FaultTaxonomy : Type 0 where
  pub category : String
  pub severity : String
  pub rowcount_visible : Bool

abbrev pub taxon : String → String → Bool → Option FaultTaxonomy
taxon c s v = some (record { category = c; severity = s; rowcount_visible = v })

-- The modes of STASH and of TAIL_CHASE: "missing" and "silent", or "error".
pub data Mode : Type 0 where
  quiet error : Mode

-- FAULT_TAXONOMY[(fault, mode)]; none for a missing key.
unfoldable pub taxonomy : Fault → Option Mode → Option FaultTaxonomy
taxonomy bark none = taxon "failure_injection" "error" false
taxonomy guard_bowl none = taxon "failure_injection" "error" false
taxonomy ignore none = taxon "failure_injection" "error" false
taxonomy sloth none = taxon "temporal" "delay" false
taxonomy no_drop none = taxon "failure_injection" "error" false
taxonomy stash (some error) = taxon "shape" "error" false
taxonomy stash (some quiet) = taxon "shape" "silent_corruption" false
taxonomy false_empty none = taxon "shape" "silent_corruption" true
taxonomy tail_chase (some error) = taxon "shape" "error" true
taxonomy tail_chase (some quiet) = taxon "shape" "silent_corruption" true
taxonomy page_hole none = taxon "shape" "silent_corruption" true
taxonomy echo none = taxon "shape" "silent_corruption" true
taxonomy shuffle none = taxon "shape" "silent_corruption" false
taxonomy tangled_leash none = taxon "value" "silent_corruption" false
taxonomy chew none = taxon "value" "silent_corruption" false
taxonomy wrong_count none = taxon "value" "silent_corruption" true
taxonomy old_bone none = taxon "state" "silent_corruption" false
taxonomy _ _ = none

-- KNOWN_FAULTS
abbrev pub known_faults : List Fault
known_faults =
    bark ∷ guard_bowl ∷ ignore ∷ sloth ∷ no_drop ∷ stash ∷ false_empty ∷ tail_chase ∷ page_hole
    ∷ echo ∷ shuffle ∷ tangled_leash ∷ chew ∷ wrong_count ∷ old_bone ∷ []

abbrev visible_in : Fault → Option Mode → Bool
visible_in f m = elim (taxonomy f m) [ none ↦ false | some t ↦ t.rowcount_visible ]

-- ROWCOUNT_VISIBLE_FAULTS
unfoldable pub is_rowcount_visible : Fault → Bool
unfolding taxonomy
is_rowcount_visible f = any (visible_in f) (none ∷ some quiet ∷ some error ∷ [])

-- BEFORE_EXECUTE_PRIORITY
abbrev pub before_execute_priority : List Fault
before_execute_priority = bark ∷ guard_bowl ∷ ignore ∷ sloth ∷ []

-- ON_RESULT_PRIORITY
abbrev pub on_result_priority : List Fault
on_result_priority =
    no_drop ∷ stash_error ∷ stash ∷ false_empty ∷ tail_chase ∷ page_hole ∷ echo ∷ shuffle
    ∷ tangled_leash ∷ chew ∷ wrong_count ∷ old_bone ∷ []

-- CHEW_PROFILES
pub data ChewProfile : Type 0 where
  utf8_truncate precision_loss nullify : ChewProfile

unfoldable pub profile_name : ChewProfile → String
profile_name utf8_truncate = "utf8_truncate"
profile_name precision_loss = "precision_loss"
profile_name nullify = "nullify"

-- BEFORE_EXECUTE_ERRORS
unfoldable pub before_execute_error : Fault → Option ErrorKind
before_execute_error bark = some bark_error
before_execute_error guard_bowl = some busy_error
before_execute_error ignore = some ignored_error
before_execute_error _ = none

-- FaultPolicy, after `__post_init__`.
pub record FaultPolicy : Type 0 where
  pub probabilities : Fault → Float
  pub stash_mode : Mode
  pub tail_chase_mode : Mode
  pub on_max_rows_error : Bool
  pub chew_profiles : List ChewProfile
  pub wrong_count_max_delta : ℕ
  pub sloth_max_delay_ms : ℕ

-- fault.removesuffix("_ERROR")
abbrev pub base_fault : Fault → Fault
base_fault stash_error = stash
base_fault f = f

-- FaultPolicy.probability
abbrev pub probability : FaultPolicy → Fault → Float
probability policy fault = policy.probabilities (base_fault fault)

-- FaultEngine._taxonomy
unfoldable pub taxonomy_of : FaultPolicy → Fault → Option FaultTaxonomy
unfolding taxonomy
taxonomy_of policy stash = taxonomy stash (some policy.stash_mode)
taxonomy_of policy tail_chase = taxonomy tail_chase (some policy.tail_chase_mode)
taxonomy_of policy f = taxonomy f none
