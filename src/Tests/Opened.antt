-- ===== src/Tests/Opened.antt =====
-- The properties of settings, of `wrap` and of log files, each at one input.
use dogdb.Prelude.{◌≡◌, refl, true, false, none, some, [], ◌∷◌}
use dogdb.Prelude.Int.{pos}
use dogdb.Prelude.Dict.{insert}
use dogdb.Models.{stash, fault_name}
use dogdb.Policy.{FaultPolicy}
use dogdb.Exec.{Result, ok, err}
use dogdb.Settings.{
  flag, number, nothing, require_positive_int, unknown_names, refuse_names, refuse_unknown,
  distinct,
}
use dogdb.Settings.Returns.{parse_auto_return_config}
use dogdb.Settings.Moods
use dogdb.Settings.Moods.{find_fault, parse_mood_config}
use dogdb.Settings.Usable.{HasLiterals}
use dogdb.Settings.Policies.{
  PolicySettings, profile_named, known_profiles, parse_profiles, parse_mode, upper_names,
  parse_probability, parse_probabilities, make_policy,
}
use dogdb.Settings.Probable.{HasUnit, IsPolicy, make_policy-IsPolicy}
use dogdb.Prelude.Texts.{starts_with}
use dogdb.Wrap.{
  make_session, duckdb, Connection, Options, Wrapped, parse_on_passthrough, parse_max_result_rows,
  adapter_for, normalize_tables, is_positive, assemble, wrap,
}
use dogdb.Wrap.Ready.{IsReady, wrap-IsReady}
use dogdb.Wrap.Sessions.{Agrees, wrap-Agrees}
use dogdb.Engine.{positional}
use dogdb.Models.{Decision, on_result}
use dogdb.Platform.{decide}
use dogdb.Wrap.Clocked.{TellsTime, wrap-TellsTime}
use dogdb.Wrap.Remembered.{IfCached, wrap-IsRemembered}
use dogdb.Engine.Cached.History.{IsRemembered}
use dogdb.Engine.Calls.{run, run_execute_many, run_execute, run_return_all}
use dogdb.Tests.{platform, digest, world, policy_of, config_of, session}

-- The value of a success, or another.
abbrev value_or {ℓ} : {A : Type ℓ} → A → Result A → A
value_or a (ok b) = b
value_or a (err e) = a

literals : HasLiterals platform
literals = record {
  three = record { finite = refl; nonnegative = refl };
  half = record { finite = refl; nonnegative = refl };
}

unit : HasUnit platform
unit = record { zero = (refl, refl); one = (refl, refl) }

abbrev policy_settings : PolicySettings
policy_settings = record {
  probabilities = ("STASH", number (pos 1)) ∷ [];
  stash_mode = "missing";
  tail_chase_mode = "silent";
  on_max_rows = "skip";
  chew_profiles = "nullify" ∷ "precision_loss" ∷ [];
  wrong_count_max_delta = number (pos 2);
  sloth_max_delay_ms = number (pos 1000);
}

abbrev policy : FaultPolicy
policy = value_or (policy_of stash) (make_policy platform policy_settings)

make_policy-IsPolicy_example : IsPolicy platform policy
unfolding make_policy upper_names insert refuse_unknown unknown_names distinct refuse_names
    find_fault fault_name parse_probabilities parse_probability parse_mode parse_profiles
    profile_named known_profiles require_positive_int
make_policy-IsPolicy_example = make_policy-IsPolicy platform unit policy_settings policy refl

-- A connection of sqlite3, STASH and OLD_BONE in every query, returns on their own, and moods.
abbrev options : Options
options = record {
  seed = "7";
  session_id = some "test";
  include_params = false;
  faults = ("STASH", number (pos 1)) ∷ ("OLD_BONE", number (pos 1)) ∷ [];
  stash_mode = "missing";
  tail_chase_mode = "silent";
  chew_profiles = "nullify" ∷ [];
  wrong_count_max_delta = number (pos 1);
  sloth_max_delay_ms = number (pos 1000);
  is_clock_callable = true;
  mood = flag true;
  auto_return = flag true;
  max_intervention_rows = 10;
  max_result_rows = nothing;
  on_max_rows = "skip";
  on_passthrough = "allow";
  house_limit = 5;
  only_tables = some ("treats" ∷ []);
  exclude_tables = none;
  debug = false;
}

abbrev connection : Connection
connection = record { module_name = "sqlite3"; type_name = "Connection" }

abbrev wrapped : Wrapped
wrapped =
    value_or (record { backend = duckdb; config = config_of stash; session = session })
      (wrap platform connection options)

wrapped_eq : wrap platform connection options ≡ ok wrapped
unfolding wrap assemble parse_on_passthrough parse_max_result_rows adapter_for normalize_tables
    is_positive parse_mood_config parse_auto_return_config make_policy upper_names insert
    refuse_unknown unknown_names distinct refuse_names find_fault fault_name parse_probabilities
    parse_probability parse_mode parse_profiles profile_named known_profiles require_positive_int
    starts_with Moods.parse_entries Moods.parse_enabled Moods.parse_overrides
wrapped_eq = refl

wrap-IsReady_example : IsReady platform wrapped
wrap-IsReady_example = wrap-IsReady platform literals unit connection options wrapped wrapped_eq

wrap-Agrees_example : Agrees platform wrapped world (
    run_execute "select 1" (positional [])
    ∷ run_execute "select 1" (positional [])
    ∷ run_return_all
    ∷ [])
wrap-Agrees_example =
    wrap-Agrees platform digest literals unit connection options wrapped wrapped_eq world (
      run_execute "select 1" (positional [])
      ∷ run_execute "select 1" (positional [])
      ∷ run_return_all
      ∷ [])

-- The second occurrence of the query.
abbrev second : Decision
second = decide platform "7" "test" false "t" "p" 2 on_result

wrap-IsRemembered_example :
    IfCached
      (λ k. IsRemembered 4 64 k second)
      (run platform wrapped.config world
        (run_execute "select 1" (positional []) ∷ run_execute "select 1" (positional []) ∷ [])
        wrapped.session).stale_cache
wrap-IsRemembered_example =
    wrap-IsRemembered platform digest literals unit connection options wrapped wrapped_eq world
      (run_execute "select 1" (positional []) ∷ run_execute "select 1" (positional []) ∷ []) second

wrapped_clock : wrapped.session.logical_tick ≡ some 0
unfolding wrap assemble parse_on_passthrough parse_max_result_rows adapter_for normalize_tables
    is_positive parse_mood_config parse_auto_return_config make_policy upper_names insert
    refuse_unknown unknown_names distinct refuse_names find_fault fault_name parse_probabilities
    parse_probability parse_mode parse_profiles profile_named known_profiles require_positive_int
    starts_with Moods.parse_entries Moods.parse_enabled Moods.parse_overrides make_session
wrapped_clock = refl

wrap-TellsTime_example : TellsTime platform wrapped 2 (
    run platform wrapped.config world
      (run_execute "select 1" (positional []) ∷ run_return_all ∷ run_execute_many ∷ [])
      wrapped.session)
wrap-TellsTime_example =
    wrap-TellsTime platform digest literals unit connection options wrapped wrapped_eq wrapped_clock
      world (run_execute "select 1" (positional []) ∷ run_return_all ∷ run_execute_many ∷ [])
