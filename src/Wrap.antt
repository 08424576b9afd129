-- ===== src/Wrap.antt =====
-- wrap, _normalize_tables and _adapter_for (proxy/connection.py of src/dogdb), with the constructors
-- that they call, for a session without a log file.
pub mod Made
pub mod Ready
pub mod Sessions
pub mod Clocked
pub mod Remembered
use Prim.Native.String.{◌++◌}
use dogdb.Prelude.Texts.{starts_with, has_text}
use dogdb.Prelude.{
  ℕ, suc, String, Bool, true, false, not, ◌&&◌, ◌||◌, Option, none, some, List, [], ◌∷◌, ◌==◌,
  str_eq, map, any, take, if◌then◌else◌,
}
use dogdb.Prelude.Dict.{Dict, lookup}
use dogdb.Prelude.Int.{pos, negsuc}
use dogdb.Prelude.Show.{hex}
use dogdb.Models.{value_error, type_error, import_error}
use dogdb.Platform.{Platform, policy_version, join_zero}
use dogdb.EventLog
use dogdb.House
use dogdb.AutoReturn
use dogdb.AutoReturn.{AutoReturnConfig}
use dogdb.Mood
use dogdb.Mood.{MoodConfig}
use dogdb.StaleCache
use dogdb.StaleCache.{StaleReadCache}
use dogdb.Stats
use dogdb.Policy.{FaultPolicy}
use dogdb.Session.{Config, Session, OnPassthrough, allow, warn, error}
use dogdb.Exec.{Result, ok, err}
use dogdb.Attempt.{found, ◌>>=◌, ◌>>◌, refuse, each}
use dogdb.Settings.{Setting, nothing, flag, number, real, require_positive_int, refuse_unknown}
use dogdb.Settings.Returns.{parse_auto_return_config}
use dogdb.Settings.Moods.{parse_mood_config}
use dogdb.Settings.Policies.{PolicySettings, is_known_fault, upper_names, make_policy}

-- What `type(connection)` says of a connection: its module and its name.
pub record Connection : Type 0 where
  pub module_name : String
  pub type_name : String

-- The arguments of `wrap` without `log_path`, which the session is made without, and with limits that
-- are not negative (a negative `house_limit` acts as 0 does). `faults` is empty for None, which `wrap` treats alike; `seed` is str(seed).
pub record Options : Type 0 where
  pub seed : String
  pub session_id : Option String
  pub include_params : Bool
  pub faults : Dict Setting
  pub stash_mode : String
  pub tail_chase_mode : String
  pub chew_profiles : List String
  pub wrong_count_max_delta : Setting
  pub sloth_max_delay_ms : Setting
  pub is_clock_callable : Bool
  pub mood : Setting
  pub auto_return : Setting
  pub max_intervention_rows : ℕ
  pub max_result_rows : Setting
  pub on_max_rows : String
  pub on_passthrough : String
  pub house_limit : ℕ
  pub only_tables : Option (List String)
  pub exclude_tables : Option (List String)
  pub debug : Bool

-- The class of the proxy, SQLiteProxy or DuckDBProxy.
pub data Backend : Type 0 where
  sqlite duckdb : Backend

pub record Wrapped : Type 0 where
  pub backend : Backend
  pub config : Config
  pub session : Session

abbrev pub is_some {ℓ} : {A : Type ℓ} → Option A → Bool
is_some none = false
is_some (some a) = true

abbrev pub two_scopes : Options → Bool
two_scopes o = is_some o.only_tables && is_some o.exclude_tables

-- What `wrap` passes on of the names of the faults and of the policy's settings.
abbrev pub policy_settings : Options → Dict Setting → PolicySettings
policy_settings o probabilities = record {
  probabilities = probabilities;
  stash_mode = o.stash_mode;
  tail_chase_mode = o.tail_chase_mode;
  on_max_rows = o.on_max_rows;
  chew_profiles = o.chew_profiles;
  wrong_count_max_delta = o.wrong_count_max_delta;
  sloth_max_delay_ms = o.sloth_max_delay_ms;
}

-- on_passthrough
unfoldable pub parse_on_passthrough : String → Result OnPassthrough
parse_on_passthrough s =
    if str_eq s "allow"
    then ok allow
    else if str_eq s "warn"
    then ok warn
    else if str_eq s "error"
    then ok error
    else err (value_error "on_passthrough must be 'allow', 'warn', or 'error'")

unfoldable pub parse_max_result_rows : Setting → Result (Option ℕ)
parse_max_result_rows nothing = ok none
parse_max_result_rows v = do n ← require_positive_int v "max_result_rows"; ok (some n)

module _ (p : Platform) where
  -- _adapter_for
  unfoldable pub adapter_for : Connection → Result Backend
  unfolding starts_with has_text
  adapter_for c =
      if starts_with c.module_name "sqlite3"
      then ok sqlite
      else if has_text "duckdb" c.module_name || has_text "duckdb" (p.lower_text c.type_name)
      then ok duckdb
      else err type_error

  -- `table.strip().lower()` of each table. A frozenset is a list here, of which only membership
  -- is asked.
  abbrev pub table_name : String → String
  table_name s = p.lower_text (p.strip_text s)

  -- _normalize_tables
  unfoldable pub normalize_tables : Option (List String) → Result (Option (List String))
  normalize_tables none = ok none
  normalize_tables (some tables) = do
    refuse (any (str_eq "") (map table_name tables))
        (value_error "table scope names must not be empty")
    ok (some (map table_name tables))

  -- value > 0
  unfoldable pub is_positive : Setting → Result Bool
  is_positive (flag b) = ok b
  is_positive (number (pos (suc n))) = ok true
  is_positive (number z) = ok false
  is_positive (real x) = ok (p.lt p.zero_float x)
  is_positive _ = err type_error

  -- probabilities.get("OLD_BONE", 0)
  abbrev pub old_bone_setting : Dict Setting → Setting
  old_bone_setting d = elim (lookup "OLD_BONE" d) [ none ↦ number (pos 0) | some v ↦ v ]

  -- The session's id: the one given, or one of the seed.
  unfoldable pub session_id_of : String → Option String → String
  unfolding hex join_zero
  session_id_of seed (some id) = id
  session_id_of seed none =
      "session-" ++ hex (take 12 (p.sha256 (join_zero ("dogdb-session" ∷ seed ∷ []))))

  -- `_hmac_key` of DecisionEngine.__init__
  unfoldable pub hmac_key_of : String → String → List ℕ
  unfolding join_zero
  hmac_key_of seed session_id = p.sha256 (join_zero (policy_version ∷ seed ∷ session_id ∷ []))

  -- The fields of the engine's DecisionEngine, and those of `_InterventionEngine` that do not change.
  unfoldable pub make_config :
      Options
      → String
      → OnPassthrough
      → Option ℕ
      → FaultPolicy
      → Option (List String)
      → Option (List String)
      → Config
  unfolding hmac_key_of
  make_config o session_id on_passthrough max_rows policy only exclude = record {
    seed = o.seed;
    session_id = session_id;
    include_params = o.include_params;
    hmac_key = hmac_key_of o.seed session_id;
    policy = policy;
    max_intervention_rows = o.max_intervention_rows;
    max_result_rows = max_rows;
    only_tables = only;
    exclude_tables = exclude;
    debug = o.debug;
    on_passthrough = on_passthrough;
  }

  -- `MoodEngine(…) if mood_config is not None else None`
  unfoldable pub make_mood : String → String → Option MoodConfig → Option Mood.MoodEngine
  make_mood seed session_id none = none
  make_mood seed session_id (some m) = some (Mood.new p seed session_id m)

  unfoldable pub make_auto_return : Option AutoReturnConfig → Option AutoReturn.AutoReturnScheduler
  make_auto_return none = none
  make_auto_return (some a) = some (AutoReturn.new a)

  -- The objects that `wrap` and `_InterventionEngine.__init__` make.
  unfoldable pub make_session :
      Options → String → Option MoodConfig → Option AutoReturnConfig → Bool → Session
  unfolding make_mood make_auto_return
  make_session o session_id mood auto_return is_stale = record {
    events = EventLog.new session_id;
    house = House.new o.house_limit;
    auto_return = make_auto_return auto_return;
    mood = make_mood o.seed session_id mood;
    stale_cache =
        if is_stale then some (StaleCache.new o.include_params o.max_intervention_rows) else none;
    stats = Stats.new;
    occurrences = [];
    logical_tick = if is_some mood || is_some auto_return then some 0 else none;
    slept = [];
    warnings = [];
    backend_calls = 0;
  }

  -- The last part of wrap, with the settings that are parsed.
  unfoldable pub assemble :
      Connection
      → Options
      → OnPassthrough
      → Option ℕ
      → Dict Setting
      → Option MoodConfig
      → Option AutoReturnConfig
      → Result Wrapped
  assemble connection o on_passthrough max_rows probabilities mood auto_return = do
    is_stale ← is_positive (old_bone_setting probabilities)
    backend ← adapter_for connection
    policy ← make_policy p (policy_settings o probabilities)
    only ← normalize_tables o.only_tables
    exclude ← normalize_tables o.exclude_tables
    let session_id = session_id_of o.seed o.session_id
    ok (record {
      backend = backend;
      config = make_config o session_id on_passthrough max_rows policy only exclude;
      session = make_session o session_id mood auto_return is_stale;
    })

  -- wrap
  unfoldable pub wrap : Connection → Options → Result Wrapped
  unfolding assemble
  wrap connection o = do
    refuse (two_scopes o) (value_error "only_tables and exclude_tables are mutually exclusive")
    on_passthrough ← parse_on_passthrough o.on_passthrough
    refuse (not o.is_clock_callable) (value_error "clock must be callable")
    max_rows ← parse_max_result_rows o.max_result_rows
    let probabilities = upper_names p [] o.faults
    refuse_unknown is_known_fault "unknown faults: " (map (λ e. e.0) probabilities)
    mood ← parse_mood_config p o.mood
    auto_return ← parse_auto_return_config o.auto_return
    assemble connection o on_passthrough max_rows probabilities mood auto_return

  -- connect. `open_sqlite` is sqlite3.connect, and `open_duckdb` duckdb.connect, if duckdb is
  -- installed.
  unfoldable pub connect :
      (String → Result Connection)
      → Option (String → Result Connection)
      → String
      → String
      → Options
      → Result Wrapped
  unfolding wrap
  connect open_sqlite open_duckdb path backend o =
      if str_eq backend "sqlite"
      then open_sqlite path >>= (λ c. wrap c o)
      else if str_eq backend "duckdb"
      then found open_duckdb import_error (λ open_path. open_path path >>= (λ c. wrap c o))
      else err (value_error "backend must be 'duckdb' or 'sqlite'")
