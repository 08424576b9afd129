-- ===== src/Settings/Policies.antt =====
-- FaultPolicy.__post_init__ (core/faults.py of src/dogdb).
use Prim.Native.String.{◌++◌}
use dogdb.Prelude.{
  zero, suc, String, Bool, true, false, not, ◌&&◌, Option, none, some, List, [], ◌∷◌, ◌==◌, str_eq,
  map, length, if◌then◌else◌,
}
use dogdb.Prelude.Dict.{Dict, lookup, insert}
use dogdb.Prelude.Int.{pos}
use dogdb.Models.{Float, Fault, fault_name, value_error, type_error}
use dogdb.Platform.{Platform}
use dogdb.Policy.{
  Mode, quiet, error, ChewProfile, utf8_truncate, precision_loss, nullify, FaultPolicy,
}
use dogdb.Exec.{Result, ok, err}
use dogdb.Attempt.{◌>>=◌, ◌>>◌, refuse}
use dogdb.Settings.{Setting, flag, number, real, require_positive_int, refuse_unknown, distinct}
use dogdb.Settings.Moods.{fault_named}

-- What a `FaultPolicy` is made of, before `__post_init__`.
pub record PolicySettings : Type 0 where
  pub probabilities : Dict Setting
  pub stash_mode : String
  pub tail_chase_mode : String
  pub on_max_rows : String
  pub chew_profiles : List String
  pub wrong_count_max_delta : Setting
  pub sloth_max_delay_ms : Setting

-- key in KNOWN_FAULTS
abbrev pub is_known_fault : String → Bool
is_known_fault s = elim (fault_named s) [ none ↦ false | some f ↦ true ]

-- key in CHEW_PROFILES, and the profile of that name
unfoldable pub profile_named : String → Option ChewProfile
profile_named s =
    if str_eq s "utf8_truncate"
    then some utf8_truncate
    else if str_eq s "precision_loss"
    then some precision_loss
    else if str_eq s "nullify"
    then some nullify
    else none

abbrev pub is_known_profile : String → Bool
is_known_profile s = elim (profile_named s) [ none ↦ false | some f ↦ true ]

-- The profiles of the names.
unfoldable pub known_profiles : List String → List ChewProfile
known_profiles [] = []
known_profiles (s ∷ l) = elim (profile_named s) [
  | none ↦ known_profiles l
  | some c ↦ c ∷ known_profiles l
]

-- `set(names) - set(CHEW_PROFILES)`, `not names` and `len(set(names)) != len(names)`
unfoldable pub parse_profiles : List String → Result (List ChewProfile)
parse_profiles names = do
  refuse_unknown is_known_profile "unknown CHEW profiles: " names
  refuse (length names == 0) (value_error "chew_profiles must not be empty")
  refuse (not (length (distinct names) == length names))
      (value_error "chew_profiles must not contain duplicates")
  ok (known_profiles names)

-- `value not in {regular, "error"}`
unfoldable pub parse_mode : String → String → String → Result Mode
parse_mode name regular value =
    if str_eq value regular
    then ok quiet
    else if str_eq value "error"
    then ok error
    else err (value_error (name ++ (" must be '" ++ (regular ++ "' or 'error'"))))

unfoldable pub is_error_mode : Mode → Bool
is_error_mode quiet = false
is_error_mode error = true

module _ (p : Platform) where
  -- {str(name).upper(): value for name, value in d.items()}: of two names that become one, the
  -- later gives the value
  unfoldable pub upper_names : Dict Setting → Dict Setting → Dict Setting
  upper_names done [] = done
  upper_names done ((k, v) ∷ rest) = upper_names (insert (p.upper_text k) v done) rest

  abbrev pub not_a_probability : {A : Type 0} → String → Result A
  not_a_probability name = err (value_error (name ++ " probability must be between 0 and 1"))

  -- `if not 0.0 <= value <= 1.0: raise …`. A bool and an int of 0 or 1 is the float of that value.
  unfoldable pub parse_probability : String → Setting → Result Float
  parse_probability name (flag false) = ok p.zero_float
  parse_probability name (flag true) = ok p.one_float
  parse_probability name (number (pos zero)) = ok p.zero_float
  parse_probability name (number (pos (suc zero))) = ok p.one_float
  parse_probability name (number z) = not_a_probability name
  parse_probability name (real x) =
      if not (p.le p.zero_float x && p.le x p.one_float) then not_a_probability name else ok x
  parse_probability name _ = err type_error

  -- The loop over the probabilities.
  unfoldable pub parse_probabilities : Dict Setting → Result (Dict Float)
  unfolding parse_probability
  parse_probabilities [] = ok []
  parse_probabilities ((k, v) ∷ rest) = do
    x ← parse_probability k v
    l ← parse_probabilities rest
    ok ((k, x) ∷ l)

  -- normalized.get(name, 0.0)
  unfoldable pub probability_in : Dict Float → Fault → Float
  probability_in l f = elim (lookup (fault_name f) l) [ none ↦ p.zero_float | some x ↦ x ]

  -- FaultPolicy.__post_init__
  unfoldable pub make_policy : PolicySettings → Result FaultPolicy
  make_policy s = do
    let normalized = upper_names [] s.probabilities
    refuse_unknown is_known_fault "unknown faults: " (map (λ e. e.0) normalized)
    l ← parse_probabilities normalized
    stash ← parse_mode "stash_mode" "missing" s.stash_mode
    tail_chase ← parse_mode "tail_chase_mode" "silent" s.tail_chase_mode
    on_max_rows ← parse_mode "on_max_rows" "skip" s.on_max_rows
    profiles ← parse_profiles s.chew_profiles
    delta ← require_positive_int s.wrong_count_max_delta "wrong_count_max_delta"
    delay ← require_positive_int s.sloth_max_delay_ms "sloth_max_delay_ms"
    ok (record {
      probabilities = probability_in l;
      stash_mode = stash;
      tail_chase_mode = tail_chase;
      on_max_rows_error = is_error_mode on_max_rows;
      chew_profiles = profiles;
      wrong_count_max_delta = delta;
      sloth_max_delay_ms = delay;
    })
