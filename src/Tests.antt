-- ===== src/Tests.antt =====
-- A small platform and a session on which the properties are applied and the model is run.
mod Runs
mod Examples
mod Statements
mod Opened
mod Cached
mod Chewed
mod Filed
mod Hidden
mod Written
mod Surfaces
use Prim.Native.String.{len}
use dogdb.Prelude.{
  ℕ, zero, suc, ◌*◌, ◌%◌, String, ◌≡◌, refl, Bool, true, false, Option, none, some, List, [], ◌∷◌,
  ltb, leb, ◌==◌, arith, length,
}
use dogdb.Prelude.Int.{pos, negsuc}
use dogdb.Models
use dogdb.Models.{
  Float, float, Decimal, Fault, stash, Value, int, Row, LogicalResult, Decision, on_result,
}
use dogdb.Platform.{Platform, IsDigest}
use dogdb.EventLog
use dogdb.House
use dogdb.AutoReturn
use dogdb.Stats
use dogdb.StaleCache
use dogdb.Sql.{select, SqlClassification}
use dogdb.Adapter.{Reply, replied}
use dogdb.Policy.{FaultPolicy, quiet, utf8_truncate}
use dogdb.Session.{Config, Session, allow}
use dogdb.Engine.{World}

abbrev pub bits : Float → ℕ
bits (float n) = n

-- A digest whose eighth byte is the length of the text; the floats stand for their bits.
abbrev pub platform : Platform
platform = record {
  sha256 = λ s.
      0
      ∷ 0
      ∷ 0
      ∷ 0
      ∷ 0
      ∷ 0
      ∷ 0
      ∷ (len s % 256)
      ∷ 0
      ∷ 0
      ∷ 0
      ∷ 0
      ∷ 0
      ∷ 0
      ∷ 0
      ∷ 0
      ∷ 0
      ∷ 0
      ∷ 0
      ∷ 0
      ∷ 0
      ∷ 0
      ∷ 0
      ∷ 0
      ∷ 0
      ∷ 0
      ∷ 0
      ∷ 0
      ∷ 0
      ∷ 0
      ∷ 0
      ∷ 0
      ∷ [];
  hmac = λ k s. s;
  lower_char = λ c. c ∷ [];
  lower_text = λ s. s;
  upper_text = λ s. s;
  strip_text = λ s. s;
  mul = λ a b. float (bits a * bits b);
  lt = λ a b. ltb (bits a) (bits b);
  le = λ a b. leb (bits a) (bits b);
  eq = λ a b. bits a == bits b;
  is_finite = λ a. true;
  round = λ a. a;
  zero_float = float 0;
  one_float = float 1;
  three_float = float 3;
  half_float = float 0;
  of_int = λ z. elim z [ pos n ↦ some (float n) | negsuc n ↦ some (float 0) ];
  unit = λ n. float 0;
  scale = λ a n. 0;
  is_finite_decimal = λ a. true;
  quantize_one = λ a. none;
  eq_decimal = λ a b. true;
  row_eq = λ a b. length a == length b;
}

abbrev pub platform-IsDigest_size : (s : String) → length (platform.sha256 s) ≡ 32
platform-IsDigest_size s = refl

abbrev pub digest : IsDigest platform
digest = record { size = platform-IsDigest_size; bytes = λ s. omega arith }

-- STASH always fires, and nothing else does.
abbrev pub only : Fault → Fault → Float
only f g = elim (Models.fault_eq f g) [ true ↦ float 1 | false ↦ float 0 ]

abbrev pub policy_of : Fault → FaultPolicy
policy_of f = record {
  probabilities = only f;
  stash_mode = quiet;
  tail_chase_mode = quiet;
  on_max_rows_error = false;
  chew_profiles = utf8_truncate ∷ [];
  wrong_count_max_delta = 1;
  sloth_max_delay_ms = 1000;
}

abbrev pub config_of : Fault → Config
config_of f = record {
  seed = "7";
  session_id = "test";
  include_params = false;
  hmac_key = [];
  policy = policy_of f;
  max_intervention_rows = 10;
  max_result_rows = none;
  only_tables = none;
  exclude_tables = none;
  debug = false;
  on_passthrough = allow;
}

abbrev pub query : SqlClassification
query = record {
  kind = select;
  has_top_level_order_by = some false;
  is_transaction = false;
  tables = some ("treats" ∷ []);
  top_level_limit = none;
  top_level_offset = none;
}

abbrev pub row_of : ℕ → Row
row_of n = int (pos n) ∷ []

abbrev pub rows : List Row
rows = row_of 1 ∷ row_of 2 ∷ row_of 3 ∷ []

-- Every text is a query, and the backend always has the same three rows.
abbrev pub world : World
world = record {
  classify = λ s. query;
  backend = λ n. replied (record {
    description = some (record { name = "id"; type = int (pos 0) } ∷ []);
    rowcount = pos 0;
    rows = rows;
  });
}

abbrev pub session : Session
session = record {
  events = EventLog.new "test";
  house = House.new 5;
  auto_return = some (AutoReturn.new (record { min_operations = 2; max_operations = 3 }));
  mood = none;
  stale_cache = some (StaleCache.new false 10);
  stats = Stats.new;
  occurrences = [];
  logical_tick = some 0;
  slept = [];
  warnings = [];
  backend_calls = 0;
}

abbrev pub result : LogicalResult
result = record { columns = "id" ∷ "name" ∷ []; rows = rows; rowcount = pos 3; column_types = none }

abbrev pub decision : Decision
decision = record {
  template_fingerprint = "sha256:1";
  parameter_fingerprint = "";
  occurrence = 1;
  phase = on_result;
  decision_key = "sha256:2";
}
