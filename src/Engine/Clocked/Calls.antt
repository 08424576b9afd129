-- ===== src/Engine/Clocked/Calls.antt =====
-- The clock of a session counts its operations (proxy/connection.py of src/dogdb).
use mathlib.Core.Path.{subst}
use dogdb.Prelude.{arith, ℕ, suc, ◌+◌, ◌≡◌, refl, String, List, [], ◌∷◌}
use dogdb.Platform.{Platform, IsDigest}
use dogdb.Session.{Config, Session}
use dogdb.Engine.{Params, World}
use dogdb.Engine.Execute.{execute, execute_many}
use dogdb.Engine.Calls.{
  Call, run_execute, run_execute_many, run_return, run_return_all, perform, run,
}
use dogdb.Engine.Reaches.Execute.{execute_rules, inner_rules, Reaches-execute_classified}
use dogdb.Engine.Reaches.Returns.{Reaches-return_treasure, Reaches-return_all}
use dogdb.Engine.Cached.Leads.{Leads, Leads-then}
use dogdb.Engine.Clocked.{IsClocked, begin_operation-Leads, Keeps-untimed}

-- How many of the calls are operations: those that execute.
abbrev pub operations : List Call → ℕ
operations [] = 0
operations (run_execute sql params ∷ l) = suc (operations l)
operations (run_execute_many ∷ l) = suc (operations l)
operations (run_return id ∷ l) = operations l
operations (run_return_all ∷ l) = operations l

none_more : (n : ℕ) → n ≡ 0 + n
none_more n = omega arith

one_more : (k n : ℕ) → k + suc n ≡ suc k + n
one_more k n = omega arith

module _ (p : Platform) (c : Config) (w : World) (g : IsDigest p) (seed id : String) where
  execute-Leads :
      (sql : String) (params : Params) (n : ℕ)
      → Leads (IsClocked p seed id n) (IsClocked p seed id (suc n)) (execute p c w sql params)
  unfolding execute
  execute-Leads sql params n = Leads-then _ _ (begin_operation-Leads p seed id n) (λ u.
      Keeps-untimed p seed id (suc n) _
        (λ o. search (execute_rules, Reaches-execute_classified p c w g refl) depth 12))

  execute_many-Leads :
      (n : ℕ) → Leads (IsClocked p seed id n) (IsClocked p seed id (suc n)) (execute_many p c w)
  unfolding execute_many
  execute_many-Leads n =
      Leads-then _ _ (begin_operation-Leads p seed id n)
        (λ u. Keeps-untimed p seed id (suc n) _ (λ o. search inner_rules depth 12))

  pub run-IsClocked :
      (l : List Call) (n : ℕ) (s : Session)
      → IsClocked p seed id n s
      → IsClocked p seed id (operations l + n) (run p c w l s)
  unfolding run perform
  run-IsClocked [] n s h = subst (λ k. IsClocked p seed id k s) (none_more n) h
  run-IsClocked (run_execute sql params ∷ l) n s h =
      subst (λ k. IsClocked p seed id k (run p c w l (execute p c w sql params s).1))
        (one_more (operations l) n)
        (run-IsClocked l (suc n) _ ((execute-Leads sql params n).at s h))
  run-IsClocked (run_execute_many ∷ l) n s h =
      subst (λ k. IsClocked p seed id k (run p c w l (execute_many p c w s).1))
        (one_more (operations l) n) (run-IsClocked l (suc n) _ ((execute_many-Leads n).at s h))
  run-IsClocked (run_return i ∷ l) n s h =
      run-IsClocked l n _ ((Keeps-untimed p seed id n _ (λ o. Reaches-return_treasure p i)).at s h)
  run-IsClocked (run_return_all ∷ l) n s h =
      run-IsClocked l n _ ((Keeps-untimed p seed id n _ (λ o. Reaches-return_all p)).at s h)
