-- ===== src/Engine/Reaches/Execute.antt =====
-- `execute` and `executemany` of proxy/connection.py in src/dogdb are sequences of steps.
use dogdb.Prelude.{ℕ, ◌≡◌, String, Bool, true, false, Option, none, some, List}
use dogdb.Models.{LogicalResult, Decision, row_cap_exceeded}
use dogdb.Platform.{Platform, IsDigest}
use dogdb.Sql.{SqlClassification}
use dogdb.Fingerprints.{Param}
use dogdb.Adapter.{Reply}
use dogdb.Stats.{Reason}
use dogdb.Session.{Config, Session, Run, OnPassthrough, allow, warn, error}
use dogdb.Exec.{Result, ok, err, modify}
use dogdb.Exec.Keeps.{Keeps-pure, Keeps-raise}
use dogdb.Engine.{Params, World, lift, apply_passthrough_policy, enforce, call_backend, begin}
use dogdb.Engine.Execute.{
  catch_row_cap, handle_row_cap, cache_result, evaluate_before, before_phase, read_phase,
  read_within, result_phase, execute_decided, execute_passthrough, execute_classified, execute,
  execute_many, Statement,
}
use dogdb.Engine.Step.{Part, next, Step}
use dogdb.Engine.Reaches.{Reaches, reach_rules}
use dogdb.Engine.Reaches.Ticks.{Reaches-begin_operation}
use dogdb.Engine.Reaches.Faults.{
  Reaches-run_before_execute, Reaches-run_on_result, Reaches-raise_result_limit_exceeded,
}

module _ {part : Part} {o : Session} where
  pub Reaches-lift : {A : Type 0} (r : Result A) → Reaches part o (lift r)
  unfolding lift
  Reaches-lift r = record { at = λ s h. h }

  pub Reaches-call_backend :
      (read : Reply → Result LogicalResult) (w : World) → Reaches part o (call_backend read w)
  unfolding call_backend
  Reaches-call_backend read w = record { at = λ s r. next r Step.backend }

  -- The handler runs from the session that the reading left.
  Reaches-handle_row_cap :
      (r : Result LogicalResult) (handler : Run LogicalResult)
      → Reaches part o handler
      → Reaches part o (handle_row_cap r handler)
  Reaches-handle_row_cap (err row_cap_exceeded) handler h = h
  Reaches-handle_row_cap (ok a) handler h = record { at = λ s r. r }
  Reaches-handle_row_cap (err _) handler h = record { at = λ s r. r }

  pub Reaches-catch_row_cap :
      (m handler : Run LogicalResult)
      → Reaches part o m
      → Reaches part o handler
      → Reaches part o (catch_row_cap m handler)
  unfolding catch_row_cap
  Reaches-catch_row_cap m handler km kh = record {
    at = λ s r. (Reaches-handle_row_cap (m s).0 handler kh).at (m s).1 (km.at s r);
  }

  Reaches-set_warnings :
      (f : Session → List String) → Reaches part o (modify (λ s. record s { warnings = f s }))
  unfolding modify
  Reaches-set_warnings f = record { at = λ s r. next r (Step.warn (f s)) }

  pub Reaches-enforce : (x : OnPassthrough) (reason : Reason) → Reaches part o (enforce x reason)
  unfolding enforce
  Reaches-enforce allow reason = Keeps-pure tt
  Reaches-enforce warn reason = Reaches-set_warnings _
  Reaches-enforce error reason = Keeps-raise _

-- What counts no occurrence and leaves the stale cache as it is.
pub ruleset inner_rules = (
  reach_rules, Reaches-lift, Reaches-call_backend, Reaches-catch_row_cap, Reaches-enforce,
  Reaches-run_before_execute, Reaches-run_on_result, Reaches-raise_result_limit_exceeded,
)

module _ {part : Part} (q : part.counts ≡ true) {o : Session} where
  pub Reaches-begin : (t : String) → Reaches part o (begin t)
  unfolding begin
  Reaches-begin t = record { at = λ s r. next r (Step.occur q t) }

  pub Reaches-cache_result :
      (d : Decision) (result : LogicalResult) → Reaches part o (cache_result d result)
  unfolding cache_result
  Reaches-cache_result d result = record { at = λ s r. next r (Step.cache q d result) }

pub ruleset execute_rules = (inner_rules, Reaches-begin, Reaches-cache_result)

module _ (p : Platform) (c : Config) (w : World) (g : IsDigest p) {part : Part} {o : Session} where
  Reaches-evaluate_before : (b : Bool) (st : Statement) → Reaches part o (evaluate_before p c b st)
  unfolding evaluate_before
  Reaches-evaluate_before false st = Keeps-pure _
  Reaches-evaluate_before true st = search inner_rules

  pub Reaches-before_phase : (st : Statement) → Reaches part o (before_phase p c st)
  unfolding before_phase
  Reaches-before_phase st = search (inner_rules, Reaches-evaluate_before)

  Reaches-read_within :
      (cap : Option ℕ) (st : Statement) → Reaches part o (read_within p c cap w st)
  unfolding read_within
  Reaches-read_within none st = search inner_rules
  Reaches-read_within (some cap) st = search inner_rules

  pub Reaches-read_phase : (st : Statement) → Reaches part o (read_phase p c w st)
  unfolding read_phase
  Reaches-read_phase st = Reaches-read_within c.max_result_rows st

  pub Reaches-execute_passthrough :
      (reason : Reason) → Reaches part o (execute_passthrough p c w reason)
  unfolding execute_passthrough apply_passthrough_policy
  Reaches-execute_passthrough reason = search inner_rules depth 12

module _ (p : Platform) (c : Config) (w : World) (g : IsDigest p) {part : Part}
    (q : part.counts ≡ true) {o : Session} where
  Reaches-result_phase :
      (st : Statement) (result : LogicalResult) (b : Bool)
      → Reaches part o (result_phase p c st result b)
  unfolding result_phase
  Reaches-result_phase st result b = search (execute_rules, q) depth 14

  Reaches-execute_decided : (st : Statement) → Reaches part o (execute_decided p c w st)
  unfolding execute_decided
  Reaches-execute_decided st =
      search (execute_rules, q, Reaches-before_phase, Reaches-read_phase, Reaches-result_phase)
        depth 14

  pub Reaches-execute_classified :
      (reason : Option Reason) (k : SqlClassification) (t : String) (values : List Param)
      → Reaches part o (execute_classified p c reason w k t values)
  unfolding execute_classified
  Reaches-execute_classified none k t values =
      search (execute_rules, q, Reaches-execute_decided) depth 12
  Reaches-execute_classified (some reason) k t values = Reaches-execute_passthrough p c w g reason

module _ (p : Platform) (c : Config) (w : World) (g : IsDigest p) {part : Part}
    (q : part.counts ≡ true) (t : part.ticks ≡ true) {o : Session} where
  -- _InterventionEngine.execute
  pub Reaches-execute : (sql : String) (params : Params) → Reaches part o (execute p c w sql params)
  unfolding execute
  Reaches-execute sql params =
      search (execute_rules, Reaches-begin_operation, Reaches-execute_classified, q, t) depth 12

module _ (p : Platform) (c : Config) (w : World) (g : IsDigest p) {part : Part}
    (t : part.ticks ≡ true) {o : Session} where
  -- _InterventionEngine.executemany
  pub Reaches-execute_many : Reaches part o (execute_many p c w)
  unfolding execute_many
  Reaches-execute_many = search (inner_rules, Reaches-begin_operation, t) depth 12
