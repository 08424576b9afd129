-- ===== src/Engine/Cached/Calls.antt =====
-- Every call of a client keeps the invariant of the stale cache (proxy/connection.py of src/dogdb).
use dogdb.Prelude.{refl, ◌+◌, ◌<◌, String, Bool, Option, none, some, List, [], ◌∷◌}
use dogdb.Models.{LogicalResult, Decision, on_result}
use dogdb.Platform.{Platform, IsDigest, decide}
use dogdb.Sql.{SqlClassification}
use dogdb.Stats.{Reason, count_at}
use dogdb.Fingerprints.{Param}
use dogdb.StaleCache.{StaleReadCache}
use dogdb.Session.{Config, Session}
use dogdb.Exec.{◌>>=◌}
use dogdb.Exec.Keeps.{Keeps, Keeps-gets, Keeps-pure, Keeps-bind}
use dogdb.Engine.{Params, World, begin}
use dogdb.Engine.Execute.{
  Statement, decision, cache_result, result_phase, execute_decided, execute_classified, execute,
}
use dogdb.Engine.Reaches.Execute.{
  inner_rules, Reaches-before_phase, Reaches-read_phase, Reaches-execute_passthrough,
  Reaches-execute_many,
}
use dogdb.Engine.Reaches.Ticks.{Reaches-begin_operation}
use dogdb.Engine.Cached.{
  IsCached, HasBegun, HasBegun-IsCached, BegunIf, FilledIf, add-begun, begun, Keeps-inner,
}
use dogdb.Engine.Reaches.Returns.{Reaches-return_treasure, Reaches-return_all}
use dogdb.Engine.Calls.{
  Call, run_execute, run_execute_many, run_return, run_return_all, perform, run,
}
use dogdb.Engine.Cached.Leads.{Leads, Leads-bind, Leads-then, Leads-when}

module _ (o : StaleReadCache) (pos : 0 < o.per_fingerprint) where
  cache_result-Leads :
      (d : Decision) (r : LogicalResult)
      → Leads (HasBegun o d.template_fingerprint d.occurrence) (IsCached o) (cache_result d r)
  unfolding cache_result
  cache_result-Leads d r = record { at = λ s h. add-begun o s.occurrences d r s.stale_cache pos h }

  module _ (p : Platform) (c : Config) (w : World) (g : IsDigest p) where
    result_phase-Leads :
        (st : Statement) (result : LogicalResult) (consumed : Bool)
        → Leads
            (HasBegun o st.template st.occurrence)
            (IsCached o)
            (result_phase p c st result consumed)
    unfolding result_phase decide
    result_phase-Leads st result consumed =
        let weaker = HasBegun-IsCached o st.template st.occurrence in
        Leads-bind _ _ weaker (Keeps-gets _) (λ evaluated.
          Leads-bind _ _ weaker
            (Keeps-inner (BegunIf o st.template st.occurrence) _ (λ s. search inner_rules depth 14))
            (λ logical.
              Leads-then _ _
                (Leads-when _ _ weaker (cache_result-Leads (decision p c st on_result) logical))
                (λ _. Keeps-pure _)))

    execute_decided-Leads :
        (st : Statement)
        → Leads (HasBegun o st.template st.occurrence) (IsCached o) (execute_decided p c w st)
    unfolding execute_decided
    execute_decided-Leads st =
        let weaker = HasBegun-IsCached o st.template st.occurrence in
        let kept = BegunIf o st.template st.occurrence in
        Leads-bind _ _ weaker (Keeps-inner kept _ (λ s. Reaches-before_phase p c w g st)) (λ before.
          Leads-bind _ _ weaker (Keeps-inner kept _ (λ s. Reaches-read_phase p c w g st)) (λ result.
            Leads-bind _ _ weaker (Keeps-inner kept _ (λ s. search inner_rules depth 14))
              (λ _. result_phase-Leads st result before.1)))

    -- What `begin` counts, `execute` goes on with.
    begun_statement :
        (k : SqlClassification) (t parameter : String)
        → Keeps (IsCached o) (
            begin t >>= λ n.
            execute_decided p c w
              (record { classification = k; template = t; parameter = parameter; occurrence = n }))
    unfolding begin ◌>>=◌
    begun_statement k t parameter = record {
      at = λ s h.
          (execute_decided-Leads (record {
            classification = k;
            template = t;
            parameter = parameter;
            occurrence = count_at t s.occurrences + 1;
          })).at
            _ (begun o t s.occurrences s.stale_cache h);
    }

    Keeps-execute_classified :
        (reason : Option Reason) (k : SqlClassification) (t : String) (values : List Param)
        → Keeps (IsCached o) (execute_classified p c reason w k t values)
    unfolding execute_classified
    Keeps-execute_classified (some reason) k t values =
        Keeps-inner (FilledIf o) _ (λ s. Reaches-execute_passthrough p c w g reason)
    Keeps-execute_classified none k t values =
        Keeps-bind _ _ (Keeps-inner (FilledIf o) _ (λ s. search inner_rules))
          (λ parameter. begun_statement k t parameter)

    pub Keeps-execute :
        (sql : String) (params : Params) → Keeps (IsCached o) (execute p c w sql params)
    unfolding execute
    Keeps-execute sql params =
        Keeps-bind _ _ (Keeps-inner (FilledIf o) _ (λ s. Reaches-begin_operation refl p)) (λ _.
          Keeps-bind _ _ (Keeps-inner (FilledIf o) _ (λ s. search inner_rules))
            (λ _. Keeps-execute_classified _ _ _ _))

    perform-IsCached : (k : Call) (s : Session) → IsCached o s → IsCached o (perform p c w k s)
    unfolding perform
    perform-IsCached (run_execute sql params) s h = (Keeps-execute sql params).at s h
    perform-IsCached run_execute_many s h =
        (Keeps-inner (FilledIf o) _ (λ s. Reaches-execute_many p c w g refl)).at s h
    perform-IsCached (run_return id) s h =
        (Keeps-inner (FilledIf o) _ (λ s. Reaches-return_treasure p id)).at s h
    perform-IsCached run_return_all s h =
        (Keeps-inner (FilledIf o) _ (λ s. Reaches-return_all p)).at s h

    pub run-IsCached : (l : List Call) (s : Session) → IsCached o s → IsCached o (run p c w l s)
    unfolding run
    run-IsCached [] s h = h
    run-IsCached (k ∷ l) s h = run-IsCached l (perform p c w k s) (perform-IsCached k s h)
