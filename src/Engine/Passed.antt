-- ===== src/Engine/Passed.antt =====
-- Statements that pass through (_InterventionEngine.execute of src/dogdb/proxy/connection.py).
use dogdb.Prelude.{◌+◌, ◌≡◌, String, Bool, true, false, not, none, ◌∷◌, if◌then◌else◌, str_eq}
use dogdb.Models.{LogicalResult, passthrough_error}
use dogdb.Platform.{Platform}
use dogdb.Stats.{Reason, transaction_statement, executemany, reason_name, count_at}
use dogdb.Adapter.{adapt}
use dogdb.Session.{Config, Session, OnPassthrough, warn, error}
use dogdb.Exec.{Result, err}
use dogdb.Engine.{World}

-- The passthroughs that no policy stops: `executemany`, which `execute` does not meet, and the
-- transaction statements.
abbrev pub is_free : Reason → Bool
is_free transaction_statement = true
is_free executemany = true
is_free _ = false

abbrev pub stops : OnPassthrough → Bool → Bool
stops error free = not free
stops _ free = false

abbrev pub warns : OnPassthrough → Bool → Bool
warns warn free = not free
warns _ free = false

-- The outcome of a statement that passes through under a reason, from a session.
pub record IsPassed (c : Config) (w : World) (reason : Reason) (s : Session)
    (r : Result LogicalResult × Session) : Type 0 where
  pub answer : r.0 ≡ (
      if stops c.on_passthrough (is_free reason)
      then err passthrough_error
      else adapt none (w.backend s.backend_calls))
  pub calls :
      r.1.backend_calls
      ≡ (if stops c.on_passthrough (is_free reason) then s.backend_calls else s.backend_calls + 1)
  pub warnings : r.1.warnings ≡ (
      if warns c.on_passthrough (is_free reason)
      then reason_name reason ∷ s.warnings
      else s.warnings)
  pub counted :
      (k : String)
      → count_at k r.1.stats.passthrough ≡ (
          if str_eq (reason_name reason) k
          then count_at k s.stats.passthrough + 1
          else count_at k s.stats.passthrough)
  pub events : r.1.events ≡ s.events
  pub house : r.1.house ≡ s.house
  pub occurrences : r.1.occurrences ≡ s.occurrences
  pub stale_cache : r.1.stale_cache ≡ s.stale_cache
  pub slept : r.1.slept ≡ s.slept

-- The session after the policy, and after the backend if that is called.
abbrev passed : OnPassthrough → Bool → World → Reason → Session → Result LogicalResult × Session
passed mode free w reason s = (
  if stops mode free then err passthrough_error else adapt none (w.backend s.backend_calls),
  record s {
    warnings = if warns mode free then reason_name reason ∷ s.warnings else s.warnings;
    backend_calls = if stops mode free then s.backend_calls else s.backend_calls + 1;
  },
)
