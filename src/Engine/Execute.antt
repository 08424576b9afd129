-- ===== src/Engine/Execute.antt =====
-- _InterventionEngine.execute and executemany (proxy/connection.py of src/dogdb).
use mathlib.Core.Option
use dogdb.Prelude.{
  ℕ, String, Bool, true, false, not, ◌&&◌, ◌||◌, Option, none, some, List, [], if◌then◌else◌,
  length, ltb,
}
use dogdb.Models.{
  LogicalResult, Decision, Fault, Phase, before_execute, on_result, row_cap_exceeded,
}
use dogdb.Platform.{Platform, decide}
use dogdb.StaleCache
use dogdb.Sql.{SqlClassification}
use dogdb.Stats.{Reason, executemany, record_classification, record_passthrough}
use dogdb.Policy.{before_execute_priority, on_result_priority}
use dogdb.Fingerprints.{Param, parameter_fingerprint, template_fingerprint}
use dogdb.Adapter.{adapt, adapt_many}
use dogdb.Session.{Config, Session, Run}
use dogdb.Exec.{Result, pure, gets, modify, when, ok, err, ◌>>=◌, ◌>>◌}
use dogdb.Faults.{has_effective_weight}
use dogdb.Faults.Record.{debug_decision}
use dogdb.Faults.OnResult.{run_before_execute, run_on_result, raise_result_limit_exceeded}
use dogdb.Engine.{
  Params, positional, named, World, lift, begin_operation, passthrough_reason,
  apply_passthrough_policy, call_backend, scope_applies, is_select, begin,
}

abbrev pub values_of : Params → List Param
values_of (positional values) = values
values_of named = []

-- `except RowCapExceeded`
abbrev pub handle_row_cap : Result LogicalResult → Run LogicalResult → Run LogicalResult
handle_row_cap (err row_cap_exceeded) handler s = handler s
handle_row_cap r handler s = (r, s)

unfoldable pub catch_row_cap : Run LogicalResult → Run LogicalResult → Run LogicalResult
catch_row_cap m handler s = let (r, s') = m s in handle_row_cap r handler s'

-- `self._stale_cache.add(on_result, logical_result)`, if there is a cache
unfoldable pub cache_result : Decision → LogicalResult → Run (Unit {0})
cache_result d result s = (
  ok tt,
  record s { stale_cache = Option.map (λ k. (StaleCache.add k d result).0) s.stale_cache },
)

abbrev pub has_cache : Session → Bool
has_cache s = elim s.stale_cache [ none ↦ false | some k ↦ true ]

abbrev pub is_some : Option ℕ → Bool
is_some none = false
is_some (some n) = true

-- What `execute` knows once a statement is decided: its classification, its fingerprints and its
-- occurrence.
pub record Statement : Type 0 where
  pub classification : SqlClassification
  pub template : String
  pub parameter : String
  pub occurrence : ℕ

module _ (p : Platform) (c : Config) where
  abbrev pub decision : Statement → Phase → Decision
  decision st phase =
      decide p c.seed c.session_id c.include_params st.template st.parameter st.occurrence phase

  -- `self._faults.debug or self._faults.has_effective_weight(…)`, over the session's mood
  abbrev pub debug_or_weight : List Fault → Session → Bool
  debug_or_weight l s = c.debug || has_effective_weight p c.policy s.mood l

  abbrev pub is_scoped : Statement → Bool
  is_scoped st = scope_applies c st.classification.tables

  abbrev pub scoped_select : Statement → Bool
  scoped_select st = is_scoped st && is_select st.classification.kind

  abbrev pub capped_read : Statement → Bool
  capped_read st = is_some c.max_result_rows && scoped_select st

  unfoldable pub evaluate_before : Bool → Statement → Run (Bool × Bool)
  evaluate_before false st = pure (false, false)
  evaluate_before true st = do
    consumed ← run_before_execute p c (not (capped_read st)) (decision st before_execute)
    pure (true, consumed)

  -- The phase before the backend: whether a decision was made, and whether a delay consumed it.
  unfoldable pub before_phase : Statement → Run (Bool × Bool)
  before_phase st = do
    weighted ← gets (debug_or_weight before_execute_priority)
    evaluate_before (is_scoped st && weighted) st

  -- The call of the backend, capped for a query in scope.
  unfoldable pub read_within : Option ℕ → World → Statement → Run LogicalResult
  read_within none w st = call_backend (adapt none) w
  read_within (some cap) w st =
      if scoped_select st
      then catch_row_cap (call_backend (adapt (some cap)) w)
          (raise_result_limit_exceeded p c (decision st on_result) cap)
      else call_backend (adapt none) w

  unfoldable pub read_phase : World → Statement → Run LogicalResult
  read_phase w st = read_within c.max_result_rows w st

  -- `evaluate_on_result`
  abbrev pub evaluates : Statement → LogicalResult → Bool → Session → Bool
  evaluates st result consumed s =
      scoped_select st
      && (not consumed
            && (debug_or_weight on_result_priority s
                || ltb c.max_intervention_rows (length result.rows))
          || has_cache s)

  -- The phase after the backend.
  unfoldable pub result_phase : Statement → LogicalResult → Bool → Run LogicalResult
  result_phase st result consumed = do
    evaluated ← gets (evaluates st result consumed)
    logical ←
        if evaluated && not consumed
        then run_on_result p c st.classification (decision st on_result) result
        else pure result
    when (scoped_select st) (cache_result (decision st on_result) logical)
    pure logical

  -- `execute` of a statement that does not pass through.
  unfoldable pub execute_decided : World → Statement → Run LogicalResult
  execute_decided w st = do
    (decided, consumed) ← before_phase st
    result ← read_phase w st
    when (capped_read st && decided && not consumed)
        (debug_decision p c (decision st before_execute) before_execute_priority)
    result_phase st result consumed

  -- `execute` of a statement that passes through.
  unfoldable pub execute_passthrough : World → Reason → Run LogicalResult
  execute_passthrough w reason = do
    modify (λ s. record s { stats = record_passthrough s.stats reason })
    apply_passthrough_policy c reason
    call_backend (adapt none) w

  -- `execute` once the reason to pass through, if any, is known.
  unfoldable pub execute_classified :
      Option Reason → World → SqlClassification → String → List Param → Run LogicalResult
  execute_classified (some reason) w k template values = execute_passthrough w reason
  execute_classified none w k template values = do
    parameter ← lift (parameter_fingerprint p c.hmac_key values)
    occurrence ← begin template
    execute_decided w (record {
      classification = k;
      template = template;
      parameter = parameter;
      occurrence = occurrence;
    })

  -- _InterventionEngine.execute
  unfoldable pub execute : World → String → Params → Run LogicalResult
  execute w sql params = do
    begin_operation p
    let k = w.classify sql
    let template = template_fingerprint p sql
    modify (λ s. record s { stats = record_classification s.stats template k.kind })
    execute_classified (passthrough_reason k params) w k template (values_of params)

  -- _InterventionEngine.executemany
  unfoldable pub execute_many : World → Run LogicalResult
  execute_many w = do
    begin_operation p
    modify (λ s. record s { stats = record_passthrough s.stats executemany })
    call_backend adapt_many w
