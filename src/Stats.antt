-- ===== src/Stats.antt =====
-- core/stats.py of src/dogdb: the anonymous counters.
pub mod Counts
use dogdb.Prelude.{ℕ, ◌+◌, String, none, some, List, [], ◌∷◌}
use dogdb.Prelude.Dict.{Dict, lookup, insert}
use dogdb.Sql.{SqlKind}

-- PASSTHROUGH_REASONS
pub data Reason : Type 0 where
  unsupported_parameter_type named_parameters unknown_sql transaction_statement : Reason
  executemany : Reason

unfoldable pub reason_name : Reason → String
reason_name unsupported_parameter_type = "unsupported_parameter_type"
reason_name named_parameters = "named_parameters"
reason_name unknown_sql = "unknown_sql"
reason_name transaction_statement = "transaction_statement"
reason_name executemany = "executemany"

pub record FingerprintStats : Type 0 where
  pub select : ℕ
  pub unknown : ℕ
  pub interventions : ℕ

pub record StatsTracker : Type 0 where
  pub by_fingerprint : Dict FingerprintStats
  pub escape_hatches : Dict ℕ
  pub passthrough : Dict ℕ

abbrev pub new : StatsTracker
new = record { by_fingerprint = []; escape_hatches = ("other", 0) ∷ []; passthrough = [] }

abbrev pub no_stats : FingerprintStats
no_stats = record { select = 0; unknown = 0; interventions = 0 }

-- `_values[fingerprint]` of the default dictionary
abbrev pub stats_at : String → Dict FingerprintStats → FingerprintStats
stats_at k m = elim (lookup k m) [ none ↦ no_stats | some v ↦ v ]

-- `d[key] += 1` where a missing key counts 0
abbrev pub count_at : String → Dict ℕ → ℕ
count_at k m = elim (lookup k m) [ none ↦ 0 | some n ↦ n ]

unfoldable pub bump : String → Dict ℕ → Dict ℕ
bump k m = insert k (count_at k m + 1) m

unfoldable pub record_classification : StatsTracker → String → SqlKind → StatsTracker
record_classification s k SqlKind.select =
    let v = stats_at k s.by_fingerprint in
    record s { by_fingerprint = insert k (record v { select = v.select + 1 }) s.by_fingerprint }
record_classification s k SqlKind.unknown =
    let v = stats_at k s.by_fingerprint in
    record s { by_fingerprint = insert k (record v { unknown = v.unknown + 1 }) s.by_fingerprint }
record_classification s k SqlKind.other = s

unfoldable pub record_intervention : StatsTracker → String → StatsTracker
record_intervention s k =
    let v = stats_at k s.by_fingerprint in
    record s {
      by_fingerprint = insert k (record v { interventions = v.interventions + 1 }) s.by_fingerprint;
    }

unfoldable pub record_escape_hatch : StatsTracker → String → StatsTracker
unfolding bump
record_escape_hatch s name = record s { escape_hatches = bump name s.escape_hatches }

unfoldable pub record_passthrough : StatsTracker → Reason → StatsTracker
unfolding bump reason_name
record_passthrough s reason = record s { passthrough = bump (reason_name reason) s.passthrough }

-- The totals of StatsTracker.snapshot.
unfoldable pub totals : List FingerprintStats → FingerprintStats
totals [] = no_stats
totals (v ∷ l) =
    let t = totals l in
    record {
      select = v.select + t.select;
      unknown = v.unknown + t.unknown;
      interventions = v.interventions + t.interventions;
    }
