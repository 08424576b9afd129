-- ===== src/Mood.antt =====
-- core/mood.py of src/dogdb: the mood that a logical clock drives.
use Prim.Native.String.{◌++◌}
pub mod Epochs
use dogdb.Prelude.{
  ℕ, zero, suc, ◌+◌, ◌/◌, ◌%◌, String, Option, none, some, [], ◌∷◌, ◌==◌, if◌then◌else◌,
}
use dogdb.Prelude.Show.{show, hex}
use dogdb.Models.{Float, Fault}
use dogdb.Platform.{Platform, derive, derived_number, policy_version, join_zero}

-- MOODS
pub data Mood : Type 0 where
  calm sleepy zoomy : Mood

abbrev pub mood_index : Mood → ℕ
mood_index calm = 0
mood_index sleepy = 1
mood_index zoomy = 2

-- MOODS[n], of a number below three.
unfoldable pub mood_at : ℕ → Mood
mood_at zero = calm
mood_at (suc zero) = sleepy
mood_at (suc (suc n)) = zoomy

-- `multipliers[state].get(fault)`
pub record MoodConfig : Type 0 where
  pub epoch_length : ℕ
  pub multipliers : Mood → Fault → Option Float

pub record MoodTransition : Type 0 where
  pub previous : Mood
  pub current : Mood
  pub tick : ℕ
  pub epoch : ℕ
  pub derivation_key : String

pub record MoodEngine : Type 0 where
  pub tick : ℕ
  pub state : Mood
  pub config : MoodConfig
  pub derivation_key : String

unfoldable pub new : Platform → String → String → MoodConfig → MoodEngine
unfolding join_zero hex
new p seed session_id config = record {
  tick = 0;
  state = calm;
  config = config;
  derivation_key =
      "sha256:" ++ hex (p.sha256 (join_zero (policy_version ∷ seed ∷ session_id ∷ "mood" ∷ [])));
}

-- The mood of an epoch.
unfoldable pub mood_of : Platform → String → ℕ → Mood
unfolding mood_at show derived_number
mood_of p key epoch = mood_at (derived_number p key ("mood:" ++ show epoch) % 3)

unfoldable pub advance : Platform → MoodEngine → MoodEngine × Option MoodTransition
unfolding mood_of derive hex show
advance p m =
    let tick = m.tick + 1 in
    if tick % m.config.epoch_length == 0
    then (let epoch = tick / m.config.epoch_length in
        let current = mood_of p m.derivation_key epoch in
        (
          record m { tick = tick; state = current },
          if mood_index current == mood_index m.state
              then none
              else some (record {
                previous = m.state;
                current = current;
                tick = tick;
                epoch = epoch;
                derivation_key =
                    "sha256:" ++ hex (derive p m.derivation_key ("mood:" ++ show epoch));
              }),
        ))
    else (record m { tick = tick }, none)

unfoldable pub multiplier : Platform → MoodEngine → Fault → Float
multiplier p m fault = elim (m.config.multipliers m.state fault) [ none ↦ p.one_float | some x ↦ x ]
