-- ===== src/Engine/Transparent.antt =====
-- The fast path of _InterventionEngine.execute (src/dogdb/proxy/connection.py): a session without a
-- weight, the debug mode, a row cap or a stale cache.
use dogdb.Prelude.{
  ◌+◌, ◌≤◌, ◌≡◌, refl, sym, ap, ◌∙◌, Bool, true, false, not, ◌&&◌, ◌||◌, none, length, ltb, arith,
}
use mathlib.Core.Option
use dogdb.StaleCache
use dogdb.Models.{LogicalResult, Decision, on_result, before_execute}
use dogdb.Platform.{Platform}
use dogdb.Policy.{before_execute_priority, on_result_priority}
use dogdb.Adapter.{adapt}
use dogdb.Session.{Config, Session}
use dogdb.Exec.{Result, ok, err, ◌>>=◌, ◌>>◌, continue, pure, gets, when, exec}
use dogdb.Faults.{has_effective_weight}
use dogdb.Faults.Record.{debug_decision}
use dogdb.Engine.{World, call_backend}
use dogdb.Engine.Execute.{
  Statement, evaluate_before, before_phase, read_phase, read_within, result_phase, execute_decided,
  debug_or_weight, cache_result, has_cache, is_scoped, scoped_select, decision, capped_read,
}

-- No fault can fire in a session, and nothing records that none did.
pub record IsQuiet (p : Platform) (c : Config) (s : Session) : Type 0 where
  pub no_debug : c.debug ≡ false
  pub no_cap : c.max_result_rows ≡ none
  pub no_cache : s.stale_cache ≡ none
  pub no_before : has_effective_weight p c.policy s.mood before_execute_priority ≡ false
  pub no_result : has_effective_weight p c.policy s.mood on_result_priority ≡ false

-- The result has no more rows than the limit.
abbrev pub Within : Config → Result LogicalResult → Type 0
Within c (ok r) = length r.rows ≤ c.max_intervention_rows
Within c (err e) = Unit

and_false : (a b : Bool) → b ≡ false → (a && b) ≡ false
and_false true b h = h
and_false false b h = refl

unweighted-before :
    (p : Platform) (c : Config) (s : Session)
    → IsQuiet p c s
    → debug_or_weight p c before_execute_priority s ≡ false
unweighted-before p c s q = rw (q.no_debug, q.no_before) refl

unweighted-result :
    (p : Platform) (c : Config) (s : Session) (r : LogicalResult)
    → IsQuiet p c s
    → length r.rows ≤ c.max_intervention_rows
    → (not false
          && (debug_or_weight p c on_result_priority s
              || ltb c.max_intervention_rows (length r.rows))
        || has_cache s)
      ≡ false
unweighted-result p c s r q h = rw (q.no_debug, q.no_result, q.no_cache) (ground (arith, h))

before_phase-quiet :
    (p : Platform) (c : Config) (st : Statement) (s : Session)
    → IsQuiet p c s
    → before_phase p c st s ≡ (ok (false, false), s)
unfolding before_phase evaluate_before exec
before_phase-quiet p c st s q =
    ap (λ b. evaluate_before p c b st s)
      (and_false (is_scoped p c st) _ (unweighted-before p c s q))

cache_result-none :
    (d : Decision) (r : LogicalResult) (s : Session)
    → s.stale_cache ≡ none
    → cache_result d r s ≡ (ok tt, s)
unfolding cache_result
cache_result-none d r s h =
    ap (λ k. (ok tt, record s { stale_cache = k }))
      (ap (Option.map (λ k. (StaleCache.add k d r).0)) h ∙ sym h)

when-cache_result :
    (b : Bool) (d : Decision) (r : LogicalResult) (s : Session)
    → s.stale_cache ≡ none
    → when b (cache_result d r) s ≡ (ok tt, s)
unfolding when pure
when-cache_result true d r s h = cache_result-none d r s h
when-cache_result false d r s h = refl

result_phase-quiet :
    (p : Platform) (c : Config) (st : Statement) (s : Session) (r : LogicalResult)
    → IsQuiet p c s
    → length r.rows ≤ c.max_intervention_rows
    → result_phase p c st r false s ≡ (ok r, s)
unfolding result_phase ◌>>=◌ pure gets
result_phase-quiet p c st s r q h =
    rw
      (
        and_false (scoped_select p c st) _ (unweighted-result p c s r q h),
        when-cache_result (scoped_select p c st) (decision p c st on_result) r s q.no_cache,
      )
      refl

capped-quiet :
    (p : Platform) (c : Config) (st : Statement) (s : Session)
    → IsQuiet p c s
    → capped_read p c st ≡ false
capped-quiet p c st s q = rw q.no_cap refl

read_phase-quiet :
    (p : Platform) (c : Config) (w : World) (st : Statement) (s : Session)
    → IsQuiet p c s
    → read_phase p c w st s ≡ call_backend (adapt none) w s
unfolding read_phase read_within
read_phase-quiet p c w st s q = ap (λ o. read_within p c o w st s) q.no_cap

-- What `execute` does with the backend's answer.
after_read-quiet :
    (p : Platform) (c : Config) (st : Statement) (r : Result LogicalResult) (s : Session)
    → IsQuiet p c s
    → Within c r
    → continue r
        (λ result.
          when
            (capped_read p c st && false && not false)
            (debug_decision p c (decision p c st before_execute) before_execute_priority)
          >> result_phase p c st result false)
        s
      ≡ (r, s)
unfolding ◌>>=◌ when pure
after_read-quiet p c st (ok r) s q h =
    rw (capped-quiet p c st s q) (result_phase-quiet p c st s r q h)
after_read-quiet p c st (err e) s q h = refl

-- A statement in a session where no fault can fire, whose result has no more rows than the limit: it
-- calls the backend once and returns or raises what the backend gives, and nothing else in the
-- session changes.
pub execute_decided-quiet :
    (p : Platform) (c : Config) (w : World) (st : Statement) (s : Session)
    → IsQuiet p c s
    → Within c (adapt none (w.backend s.backend_calls))
    → execute_decided p c w st s ≡ call_backend (adapt none) w s
unfolding execute_decided ◌>>=◌ call_backend
execute_decided-quiet p c w st s q h =
    rw (before_phase-quiet p c st s q, read_phase-quiet p c w st s q)
      (after_read-quiet p c st (adapt none (w.backend s.backend_calls))
        (record s { backend_calls = s.backend_calls + 1 })
        (record {
          no_debug = q.no_debug;
          no_cap = q.no_cap;
          no_cache = q.no_cache;
          no_before = q.no_before;
          no_result = q.no_result;
        })
        h)
