-- ===== src/Settings/Usable.antt =====
-- The configurations that parse_mood_config (core/mood.py of src/dogdb) makes.
use mathlib.Core.Path.{subst}
use mathlib.Core.Option.{some-injective}
use dogdb.Prelude.{
  ◌<◌, ◌≡◌, refl, true, false, not, ◌&&◌, ◌||◌, Option, some, ◌==◌, arith, inl, inr,
}
use dogdb.Prelude.Int.{pos}
use dogdb.Models.{
  overflow_error, Float, Fault, fault_eq, ignore, sloth, no_drop, guard_bowl, shuffle, echo,
  tail_chase, chew,
}
use dogdb.Platform.{Platform}
use dogdb.Mood.{Mood, MoodConfig, sleepy, zoomy, mood_index}
use dogdb.Exec.{ok}
use dogdb.Attempt.{Makes, Makes->>=, Makes->>=_any, Makes-if, Makes-found, Makes-ok}
use dogdb.Settings.{
  found_in_if, Setting, Entries, nothing, flag, number, real, mapping, no_entries, entry,
  require_positive_int, required-IsPositive, get_or, keys, refuse_unknown,
}
use dogdb.Settings.Moods.{
  Multipliers, mood_named, fault_named, default_multipliers, set_multiplier, checked_multiplier,
  parse_multiplier, override_faults, override_state, override_states, parse_overrides,
  parse_enabled, parse_entries, parse_mood_config,
}

-- A finite number that is not negative.
pub record IsWeight (p : Platform) (x : Float) : Type 0 where
  pub finite : p.is_finite x ≡ true
  pub nonnegative : p.lt x p.zero_float ≡ false

-- The literals 3.0 and 0.5 are such numbers.
pub record HasLiterals (p : Platform) : Type 0 where
  pub three : IsWeight p p.three_float
  pub half : IsWeight p p.half_float

abbrev pub AreWeights : Platform → Multipliers → Type 0
AreWeights p table = (m : Mood) (f : Fault) (x : Float) → table m f ≡ some x → IsWeight p x

pub record IsUsable (p : Platform) (c : MoodConfig) : Type 0 where
  pub epochs : 0 < c.epoch_length
  pub weights : AreWeights p c.multipliers

module _ (p : Platform) where
  checked-IsWeight : (x : Float) → Makes (IsWeight p) (checked_multiplier p x)
  unfolding checked_multiplier
  checked-IsWeight x =
      Makes-if (IsWeight p) (not (p.is_finite x) || p.lt x p.zero_float) _ x
        (λ passed. record { finite = ground (arith, passed); nonnegative = ground (arith, passed) })

  parse_multiplier-IsWeight : (v : Setting) → Makes (IsWeight p) (parse_multiplier p v)
  unfolding parse_multiplier Makes
  parse_multiplier-IsWeight (number z) =
      Makes-found (IsWeight p) (p.of_int z) overflow_error _ checked-IsWeight
  parse_multiplier-IsWeight (real x) = checked-IsWeight x
  parse_multiplier-IsWeight v = tt

  AreWeights-set :
      (state : Mood) (fault : Fault) (y : Float) (table : Multipliers)
      → IsWeight p y
      → AreWeights p table
      → AreWeights p (set_multiplier state fault y table)
  unfolding set_multiplier
  AreWeights-set state fault y table w h m f x e =
      elim (found_in_if (mood_index m == mood_index state && fault_eq f fault) y (table m f) e) [
        | inl same ↦ subst (IsWeight p) same w
        | inr old ↦ h m f x old
      ]

  AreWeights-default : HasLiterals p → AreWeights p (default_multipliers p)
  unfolding default_multipliers
  AreWeights-default l sleepy ignore x e = subst (IsWeight p) (some-injective _ x e) l.three
  AreWeights-default l sleepy sloth x e = subst (IsWeight p) (some-injective _ x e) l.three
  AreWeights-default l sleepy no_drop x e = subst (IsWeight p) (some-injective _ x e) l.three
  AreWeights-default l sleepy guard_bowl x e = subst (IsWeight p) (some-injective _ x e) l.three
  AreWeights-default l sleepy shuffle x e = subst (IsWeight p) (some-injective _ x e) l.half
  AreWeights-default l sleepy echo x e = subst (IsWeight p) (some-injective _ x e) l.half
  AreWeights-default l sleepy tail_chase x e = subst (IsWeight p) (some-injective _ x e) l.half
  AreWeights-default l zoomy shuffle x e = subst (IsWeight p) (some-injective _ x e) l.three
  AreWeights-default l zoomy echo x e = subst (IsWeight p) (some-injective _ x e) l.three
  AreWeights-default l zoomy tail_chase x e = subst (IsWeight p) (some-injective _ x e) l.three
  AreWeights-default l zoomy chew x e = subst (IsWeight p) (some-injective _ x e) l.three
  AreWeights-default l zoomy ignore x e = subst (IsWeight p) (some-injective _ x e) l.half
  AreWeights-default l zoomy sloth x e = subst (IsWeight p) (some-injective _ x e) l.half
  AreWeights-default l m f x e = cc e

  override_faults-AreWeights :
      (state : Mood) (faults : Entries) (table : Multipliers)
      → AreWeights p table
      → Makes (AreWeights p) (override_faults p state faults table)
  unfolding override_faults Makes
  override_faults-AreWeights state no_entries table w = w
  override_faults-AreWeights state (entry raw v rest) table w =
      Makes-found (AreWeights p) (fault_named (p.upper_text raw)) _ _ (λ fault.
        Makes->>= (AreWeights p) (IsWeight p) (parse_multiplier p v) _ (parse_multiplier-IsWeight v)
          (λ x wx.
            override_faults-AreWeights state rest _ (AreWeights-set state fault x table wx w)))

  override_state-AreWeights :
      (state : Mood) (v : Setting) (table : Multipliers)
      → AreWeights p table
      → Makes (AreWeights p) (override_state p state v table)
  unfolding override_state Makes
  override_state-AreWeights state (mapping faults) table w =
      override_faults-AreWeights state faults table w
  override_state-AreWeights state v table w = tt

  override_states-AreWeights :
      (l : Entries) (table : Multipliers)
      → AreWeights p table
      → Makes (AreWeights p) (override_states p l table)
  unfolding override_states Makes
  override_states-AreWeights no_entries table w = w
  override_states-AreWeights (entry raw v rest) table w =
      Makes-found (AreWeights p) (mood_named (p.upper_text raw)) _ _ (λ state.
        Makes->>= (AreWeights p) (AreWeights p) (override_state p state v table) _
          (override_state-AreWeights state v table w)
          (λ t wt. override_states-AreWeights rest t wt))

  parse_overrides-AreWeights :
      HasLiterals p → (v : Setting) → Makes (AreWeights p) (parse_overrides p v)
  unfolding parse_overrides Makes
  parse_overrides-AreWeights l (mapping entries) =
      override_states-AreWeights entries _ (AreWeights-default l)
  parse_overrides-AreWeights l v = tt

  -- The configuration, if there is one.
  abbrev pub IsUsableOption : Option MoodConfig → Type 0
  IsUsableOption c = (m : MoodConfig) → c ≡ some m → IsUsable p m

  parse_enabled-IsUsable :
      HasLiterals p → (v : Setting) (l : Entries) → Makes IsUsableOption (parse_enabled p v l)
  unfolding parse_enabled Makes
  parse_enabled-IsUsable literals (flag false) l = λ m e. cc e
  parse_enabled-IsUsable literals (flag true) l =
      Makes->>= IsUsableOption (λ n. 0 < n)
        (require_positive_int (get_or "epoch_length" (number (pos 10)) l) "mood.epoch_length") _
        (required-IsPositive _ _)
        (λ n positive.
          Makes->>= IsUsableOption (AreWeights p)
            (parse_overrides p (get_or "multipliers" (mapping no_entries) l)) _
            (parse_overrides-AreWeights literals _)
            (λ table w m e.
              subst (IsUsable p) (some-injective _ m e)
                (record { epochs = positive; weights = w })))
  parse_enabled-IsUsable literals v l = tt

  parse_entries-IsUsable : HasLiterals p → (l : Entries) → Makes IsUsableOption (parse_entries p l)
  unfolding parse_entries
  parse_entries-IsUsable literals l =
      Makes->>=_any IsUsableOption (refuse_unknown _ _ (keys l)) _
        (λ u. parse_enabled-IsUsable literals _ l)

  pub parse_mood_config-Makes :
      HasLiterals p → (v : Setting) → Makes IsUsableOption (parse_mood_config p v)
  unfolding parse_mood_config Makes
  parse_mood_config-Makes literals nothing = λ m e. cc e
  parse_mood_config-Makes literals (flag false) = λ m e. cc e
  parse_mood_config-Makes literals (flag true) = parse_entries-IsUsable literals no_entries
  parse_mood_config-Makes literals (mapping l) = parse_entries-IsUsable literals l
  parse_mood_config-Makes literals v = tt

-- If the literals 3.0 and 0.5 are finite and not negative, then whatever the setting, a configuration
-- that is made of it has a positive epoch length, and every multiplier in it is finite and not negative.
pub parse_mood_config-IsUsable :
    (p : Platform)
    → HasLiterals p
    → (v : Setting) (c : MoodConfig) → parse_mood_config p v ≡ ok (some c)
    → IsUsable p c
parse_mood_config-IsUsable p literals v c e =
    Makes-ok (IsUsableOption p) (parse_mood_config p v) (parse_mood_config-Makes p literals v) e c
      refl
