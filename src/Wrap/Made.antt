-- ===== src/Wrap/Made.antt =====
-- The session that wrap (proxy/connection.py of src/dogdb) makes of usable parts.
use mathlib.Core.Path.{subst}
use mathlib.Core.Option.{some-injective}
use dogdb.Prelude.{◌≡◌, refl, sym, String, Bool, true, false, ◌||◌, Option, none, some, arith}
use dogdb.Platform.{Platform}
use dogdb.House.{project}
use dogdb.AutoReturn.{AutoReturnConfig, AutoReturnScheduler}
use dogdb.Mood.{MoodConfig, MoodEngine}
use dogdb.Mood
use dogdb.StaleCache
use dogdb.StaleCache.{StaleReadCache}
use dogdb.Settings.Returns.{IsRange}
use dogdb.Settings.Usable.{IsUsable, IsUsableOption}
use dogdb.Engine.Housed.{IsHoused}
use dogdb.Engine.Logged.{IsNumbered}
use dogdb.Wrap.{Options, is_some, make_mood, make_auto_return, make_session}

abbrev pub IsRangeOption : Option AutoReturnConfig → Type 0
IsRangeOption c = (a : AutoReturnConfig) → c ≡ some a → IsRange a

module _ (p : Platform) where
  -- A session as `make_session` makes it, of usable parts.
  pub make_session-IsUsable :
      (seed id : String) (mood : Option MoodConfig)
      → IsUsableOption p mood
      → (m : MoodEngine) → make_mood p seed id mood ≡ some m
      → IsUsable p m.config
  unfolding make_mood Mood.new
  make_session-IsUsable seed id none u m e = cc e
  make_session-IsUsable seed id (some c) u m e =
      subst (λ m. IsUsable p m.config) (some-injective _ m e) (u c refl)

  pub make_session_mood :
      (seed id : String) (mood : Option MoodConfig)
      → (m : MoodEngine) → make_mood p seed id mood ≡ some m
      → m ≡ Mood.new p seed id m.config
  unfolding make_mood Mood.new
  make_session_mood seed id none m e = cc e
  make_session_mood seed id (some c) m e =
      subst (λ m. m ≡ Mood.new p seed id m.config) (some-injective _ m e) refl

  pub make_session-IsRange :
      (c : Option AutoReturnConfig)
      → IsRangeOption c
      → (a : AutoReturnScheduler) → make_auto_return p c ≡ some a
      → IsRange a.config
  unfolding make_auto_return
  make_session-IsRange none u a e = cc e
  make_session-IsRange (some c) u a e =
      subst (λ a. IsRange a.config) (some-injective _ a e) (u c refl)

  pub make_session_clock :
      (o : Options) (id : String) (mood : Option MoodConfig) (auto : Option AutoReturnConfig)
      (b : Bool)
      → is_some (make_session p o id mood auto b).logical_tick ≡ (
          is_some (make_session p o id mood auto b).mood
          || is_some (make_session p o id mood auto b).auto_return)
  unfolding make_session make_mood make_auto_return
  make_session_clock o id none none b = refl
  make_session_clock o id none (some a) b = refl
  make_session_clock o id (some m) none b = refl
  make_session_clock o id (some m) (some a) b = refl

  pub make_session-IsHoused :
      (o : Options) (id : String) (mood : Option MoodConfig) (auto : Option AutoReturnConfig)
      (b : Bool)
      → IsHoused (make_session p o id mood auto b)
  unfolding make_session project
  make_session-IsHoused o id mood auto b = record {
    valid = record { keyed = tt; located = λ i t e. cc; bounded = omega arith };
    rebuilt = refl;
  }

  pub make_session_cache :
      (o : Options) (id : String) (mood : Option MoodConfig) (auto : Option AutoReturnConfig)
      (b : Bool)
      → (k : StaleReadCache) → (make_session p o id mood auto b).stale_cache ≡ some k
      → k ≡ StaleCache.new o.include_params o.max_intervention_rows
  unfolding make_session
  make_session_cache o id mood auto true k e = sym (some-injective _ k e)
  make_session_cache o id mood auto false k e = cc e

  pub make_session-IsNumbered :
      (o : Options) (id : String) (mood : Option MoodConfig) (auto : Option AutoReturnConfig)
      (b : Bool)
      → IsNumbered (make_session p o id mood auto b).events
  unfolding make_session
  make_session-IsNumbered o id mood auto b = record { last = refl; numbered = tt }
