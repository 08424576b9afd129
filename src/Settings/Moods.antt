-- ===== src/Settings/Moods.antt =====
-- parse_mood_config and the default multipliers (core/mood.py of src/dogdb).
use Prim.Native.String.{◌++◌}
use dogdb.Prelude.{
  String, true, false, not, ◌&&◌, ◌||◌, Option, none, some, List, [], ◌∷◌, ◌==◌, str_eq,
  if◌then◌else◌,
}
use dogdb.Prelude.Int.{pos}
use dogdb.Models.{
  Float, Fault, fault_name, fault_eq, ignore, sloth, no_drop, guard_bowl, shuffle, echo, tail_chase,
  chew, value_error, overflow_error,
}
use dogdb.Platform.{Platform}
use dogdb.Policy.{known_faults}
use dogdb.Mood.{Mood, MoodConfig, calm, sleepy, zoomy, mood_index}
use dogdb.Exec.{Result, ok, err}
use dogdb.Attempt.{◌>>=◌, ◌>>◌, found}
use dogdb.Settings.{
  Setting, Entries, nothing, flag, number, real, mapping, no_entries, entry, require_positive_int,
  get_or, keys, refuse_unknown, one_of,
}

abbrev pub Multipliers : Type 0
Multipliers = Mood → Fault → Option Float

-- The names in MOODS.
unfoldable pub state_name : Mood → String
state_name calm = "CALM"
state_name sleepy = "SLEEPY"
state_name zoomy = "ZOOMY"

-- `state in MOODS`, and the mood of that name
unfoldable pub mood_named : String → Option Mood
mood_named s =
    if str_eq s "CALM"
    then some calm
    else if str_eq s "SLEEPY"
    then some sleepy
    else if str_eq s "ZOOMY"
    then some zoomy
    else none

-- `fault in KNOWN_FAULTS`, and the fault of that name
unfoldable pub find_fault : String → List Fault → Option Fault
unfolding fault_name
find_fault s [] = none
find_fault s (f ∷ l) = if str_eq (fault_name f) s then some f else find_fault s l

abbrev pub fault_named : String → Option Fault
fault_named s = find_fault s known_faults

module _ (p : Platform) where
  -- DEFAULT_MULTIPLIERS
  unfoldable pub default_multipliers : Multipliers
  default_multipliers sleepy ignore = some p.three_float
  default_multipliers sleepy sloth = some p.three_float
  default_multipliers sleepy no_drop = some p.three_float
  default_multipliers sleepy guard_bowl = some p.three_float
  default_multipliers sleepy shuffle = some p.half_float
  default_multipliers sleepy echo = some p.half_float
  default_multipliers sleepy tail_chase = some p.half_float
  default_multipliers zoomy shuffle = some p.three_float
  default_multipliers zoomy echo = some p.three_float
  default_multipliers zoomy tail_chase = some p.three_float
  default_multipliers zoomy chew = some p.three_float
  default_multipliers zoomy ignore = some p.half_float
  default_multipliers zoomy sloth = some p.half_float
  default_multipliers _ _ = none

-- multipliers[state][fault] = x
unfoldable pub set_multiplier : Mood → Fault → Float → Multipliers → Multipliers
set_multiplier state fault x table m f =
    if mood_index m == mood_index state && fault_eq f fault then some x else table m f

abbrev not_a_multiplier : Result Float
not_a_multiplier = err (value_error "mood multipliers must be finite non-negative numbers")

module _ (p : Platform) where
  -- `if not math.isfinite(multiplier) or multiplier < 0: raise …`
  unfoldable pub checked_multiplier : Float → Result Float
  checked_multiplier x =
      if not (p.is_finite x) || p.lt x p.zero_float then not_a_multiplier else ok x

  unfoldable pub parse_multiplier : Setting → Result Float
  unfolding checked_multiplier
  parse_multiplier (number z) = found (p.of_int z) overflow_error checked_multiplier
  parse_multiplier (real x) = checked_multiplier x
  parse_multiplier _ = not_a_multiplier

  -- The loop over the faults of a state.
  unfoldable pub override_faults : Mood → Entries → Multipliers → Result Multipliers
  unfolding parse_multiplier set_multiplier find_fault
  override_faults state no_entries table = ok table
  override_faults state (entry raw v rest) table =
      found (fault_named (p.upper_text raw))
        (value_error ("unknown fault in mood multipliers: " ++ raw))
        (λ fault. parse_multiplier v >>= λ x.
          override_faults state rest (set_multiplier state fault x table))

  unfoldable pub override_state : Mood → Setting → Multipliers → Result Multipliers
  override_state state (mapping faults) table = override_faults state faults table
  override_state state _ table =
      err (value_error ("mood multipliers for " ++ (state_name state ++ " must be a mapping")))

  -- The loop over the states.
  unfoldable pub override_states : Entries → Multipliers → Result Multipliers
  unfolding override_state mood_named
  override_states no_entries table = ok table
  override_states (entry raw v rest) table =
      found (mood_named (p.upper_text raw)) (value_error ("unknown mood state: " ++ raw))
        (λ state. override_state state v table >>= override_states rest)

  unfoldable pub parse_overrides : Setting → Result Multipliers
  unfolding override_states
  parse_overrides (mapping l) = override_states l (default_multipliers p)
  parse_overrides _ = err (value_error "mood.multipliers must be a mapping")

  -- parse_mood_config, by the value of `enabled`
  unfoldable pub parse_enabled : Setting → Entries → Result (Option MoodConfig)
  parse_enabled (flag false) l = ok none
  parse_enabled (flag true) l = do
    epoch ← require_positive_int (get_or "epoch_length" (number (pos 10)) l) "mood.epoch_length"
    table ← parse_overrides (get_or "multipliers" (mapping no_entries) l)
    ok (some (record { epoch_length = epoch; multipliers = table }))
  parse_enabled _ l = err (value_error "mood.enabled must be a boolean")

  unfoldable pub parse_entries : Entries → Result (Option MoodConfig)
  parse_entries l = do
    refuse_unknown (one_of ("enabled" ∷ "epoch_length" ∷ "multipliers" ∷ []))
        "unknown mood settings: " (keys l)
    parse_enabled (get_or "enabled" (flag true) l) l

  -- parse_mood_config
  unfoldable pub parse_mood_config : Setting → Result (Option MoodConfig)
  parse_mood_config nothing = ok none
  parse_mood_config (flag false) = ok none
  parse_mood_config (flag true) = parse_entries no_entries
  parse_mood_config (mapping l) = parse_entries l
  parse_mood_config _ = err (value_error "mood must be a boolean or mapping")
