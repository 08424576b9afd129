-- ===== src/Wrap/Ready.antt =====
-- What wrap (proxy/connection.py of src/dogdb) makes.
use mathlib.Core.Path.{subst}
use dogdb.Prelude.{
  ℕ, ◌≡◌, refl, String, Bool, true, false, not, ◌&&◌, ◌||◌, Option, none, some, List, [], map, any,
  str_eq,
}
use dogdb.Prelude.Dict.{Dict}
use dogdb.Models.{value_error}
use dogdb.Platform.{Platform}
use dogdb.AutoReturn.{AutoReturnConfig, AutoReturnScheduler}
use dogdb.Mood.{MoodConfig, MoodEngine}
use dogdb.Mood
use dogdb.Policy.{FaultPolicy}
use dogdb.StaleCache
use dogdb.StaleCache.{StaleReadCache}
use dogdb.Session.{OnPassthrough}
use dogdb.Exec.{ok}
use dogdb.Attempt.{refuse, Makes, Makes->>=, Makes->>=_any, Makes-ok, Makes-result, Makes-refuse}
use dogdb.Settings.{Setting, refuse_unknown}
use dogdb.Settings.Returns.{parse_auto_return_config, IsRange, parse_auto_return_config-IsRange}
use dogdb.Settings.Moods.{parse_mood_config}
use dogdb.Settings.Usable.{HasLiterals, IsUsable, IsUsableOption, parse_mood_config-Makes}
use dogdb.Settings.Policies.{is_known_fault, upper_names, make_policy}
use dogdb.Settings.Probable.{HasUnit, IsPolicy, make_policy-Makes}
use dogdb.Engine.Housed.{IsHoused}
use dogdb.Engine.Logged.{IsNumbered}
use dogdb.Wrap.{
  Backend, two_scopes, assemble, Connection, Options, Wrapped, is_some, parse_on_passthrough,
  parse_max_result_rows, adapter_for, table_name, normalize_tables, is_positive, old_bone_setting,
  session_id_of, policy_settings, make_config, make_session, wrap,
}
use dogdb.Wrap.Made.{
  IsRangeOption, make_session-IsUsable, make_session_mood, make_session-IsRange, make_session_clock,
  make_session-IsHoused, make_session_cache, make_session-IsNumbered,
}

-- A configuration and a session in which calls can start.
pub record IsReady (p : Platform) (w : Wrapped) : Type 0 where
  pub policy : IsPolicy p w.config.policy
  pub weights : (m : MoodEngine) → w.session.mood ≡ some m → IsUsable p m.config
  pub mood :
      (m : MoodEngine)
      → w.session.mood ≡ some m
      → m ≡ Mood.new p w.config.seed w.config.session_id m.config
  pub range : (a : AutoReturnScheduler) → w.session.auto_return ≡ some a → IsRange a.config
  -- The logical clock runs if something needs it.
  pub clock :
      is_some w.session.logical_tick ≡ (is_some w.session.mood || is_some w.session.auto_return)
  pub scope : is_some w.config.only_tables && is_some w.config.exclude_tables ≡ false
  pub housed : IsHoused w.session
  pub numbered : IsNumbered w.session.events
  -- The house and the log are empty.
  pub nothing_hidden : w.session.house.treasures ≡ []
  pub nothing_logged : w.session.events.events ≡ []
  -- The stale cache, if there is one, is empty and has the limits of the source.
  pub cache :
      (k : StaleReadCache)
      → w.session.stale_cache ≡ some k
      → k ≡ StaleCache.new w.config.include_params w.config.max_intervention_rows

one_scope :
    (a b c d : Option (List String))
    → is_some a ≡ is_some c
    → is_some b ≡ is_some d
    → is_some c && is_some d ≡ false
    → is_some a && is_some b ≡ false
one_scope a b c d e f scope = rw (e, f) scope

module _ (p : Platform) where
  normalize_tables_scope :
      (tables : Option (List String))
      → Makes (λ names. is_some names ≡ is_some tables) (normalize_tables p tables)
  unfolding normalize_tables Makes
  normalize_tables_scope none = refl
  normalize_tables_scope (some tables) =
      Makes->>=_any (λ names. is_some names ≡ true)
        (refuse (any (str_eq "") (map (table_name p) tables)) _) _ (λ u. refl)

  parts-IsReady :
      (o : Options) (id : String) (on_passthrough : OnPassthrough) (max_rows : Option ℕ)
      (backend : Backend) (is_stale : Bool) {policy : FaultPolicy} {mood : Option MoodConfig}
      {auto : Option AutoReturnConfig} (only exclude : Option (List String))
      → IsPolicy p policy
      → IsUsableOption p mood
      → IsRangeOption auto
      → is_some only && is_some exclude ≡ false
      → IsReady p (record {
        backend = backend;
        config = make_config p o id on_passthrough max_rows policy only exclude;
        session = make_session p o id mood auto is_stale;
      })
  unfolding make_config make_session
  parts-IsReady o id on_passthrough max_rows backend is_stale {policy} {mood} {auto} only exclude
        valid usable range scope =
      record {
        policy = valid;
        weights = make_session-IsUsable p o.seed id mood usable;
        mood = make_session_mood p o.seed id mood;
        range = make_session-IsRange p auto range;
        clock = make_session_clock p o id mood auto is_stale;
        scope = scope;
        housed = make_session-IsHoused p o id mood auto is_stale;
        numbered = make_session-IsNumbered p o id mood auto is_stale;
        nothing_hidden = refl;
        nothing_logged = refl;
        cache = make_session_cache p o id mood auto is_stale;
      }

  assemble-Makes :
      HasUnit p
      → (connection : Connection) (o : Options) (on_passthrough : OnPassthrough)
        (max_rows : Option ℕ) (probabilities : Dict Setting) (mood : Option MoodConfig)
        (auto : Option AutoReturnConfig)
      → two_scopes o ≡ false
      → IsUsableOption p mood
      → IsRangeOption auto
      → Makes (IsReady p) (assemble p connection o on_passthrough max_rows probabilities mood auto)
  unfolding assemble Makes
  assemble-Makes unit connection o on_passthrough max_rows probabilities mood auto scope usable
        range =
      Makes->>=_any (IsReady p) (is_positive p (old_bone_setting p probabilities)) _ (λ is_stale.
        Makes->>=_any (IsReady p) (adapter_for p connection) _ (λ backend.
          Makes->>= (IsReady p) (IsPolicy p) (make_policy p (policy_settings o probabilities)) _
            (make_policy-Makes p unit (policy_settings o probabilities))
            (λ policy valid.
              Makes->>= (IsReady p) (λ names. is_some names ≡ is_some o.only_tables)
                (normalize_tables p o.only_tables) _ (normalize_tables_scope o.only_tables)
                (λ only e.
                  Makes->>= (IsReady p) (λ names. is_some names ≡ is_some o.exclude_tables)
                    (normalize_tables p o.exclude_tables) _
                    (normalize_tables_scope o.exclude_tables)
                    (λ exclude f.
                      parts-IsReady o (session_id_of p o.seed o.session_id) on_passthrough max_rows
                        backend is_stale only exclude valid usable range
                        (one_scope only exclude o.only_tables o.exclude_tables e f scope))))))

  parsed_range : (v : Setting) → Makes IsRangeOption (parse_auto_return_config v)
  parsed_range v = Makes-result IsRangeOption (parse_auto_return_config v) (λ c e a f.
      parse_auto_return_config-IsRange v (subst (λ c. parse_auto_return_config v ≡ ok c) f e))

  wrap-Makes :
      HasLiterals p
      → HasUnit p
      → (connection : Connection) (o : Options) → Makes (IsReady p) (wrap p connection o)
  unfolding wrap
  wrap-Makes literals unit connection o =
      Makes->>= (IsReady p) (λ u. two_scopes o ≡ false)
        (refuse (two_scopes o)
          (value_error "only_tables and exclude_tables are mutually exclusive"))
        _ (Makes-refuse (two_scopes o) _)
        (λ v scope.
          Makes->>=_any (IsReady p) (parse_on_passthrough o.on_passthrough) _ (λ on_passthrough.
            Makes->>=_any (IsReady p)
              (refuse (not o.is_clock_callable) (value_error "clock must be callable")) _
              (λ v.
                Makes->>=_any (IsReady p) (parse_max_result_rows o.max_result_rows) _ (λ max_rows.
                  Makes->>=_any (IsReady p)
                    (refuse_unknown is_known_fault "unknown faults: "
                      (map (λ e. e.0) (upper_names p [] o.faults)))
                    _
                    (λ v.
                      Makes->>= (IsReady p) (IsUsableOption p) (parse_mood_config p o.mood) _
                        (parse_mood_config-Makes p literals o.mood)
                        (λ mood usable.
                          Makes->>= (IsReady p) IsRangeOption
                            (parse_auto_return_config o.auto_return) _ (parsed_range o.auto_return)
                            (λ auto range.
                              assemble-Makes unit connection o on_passthrough max_rows
                                (upper_names p [] o.faults) mood auto scope usable range)))))))

-- For `wrap` without `log_path` and with limits (`max_intervention_rows`, `house_limit`) that are not
-- negative, whatever its other arguments: if it raises nothing, and 0.0, 1.0, 3.0 and 0.5 are floats in
-- the ranges of their names, then it makes a valid policy, usable multipliers, a valid range of holds,
-- the mood of the seed and the session, a logical clock just if a mood or an automatic return needs it,
-- at most one of the two table scopes, a valid empty house that agrees with its log, a log without
-- events that is numbered from 1, and an empty stale cache with the limits 4 and 64, if it has one.
pub wrap-IsReady :
    (p : Platform)
    → HasLiterals p
    → HasUnit p
    → (connection : Connection) (o : Options) (w : Wrapped) → wrap p connection o ≡ ok w
    → IsReady p w
wrap-IsReady p literals unit connection o w e =
    Makes-ok (IsReady p) (wrap p connection o) (wrap-Makes p literals unit connection o) e
