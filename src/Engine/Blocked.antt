-- ===== src/Engine/Blocked.antt =====
-- The statements that a fault blocks before the backend (_InterventionEngine.execute of
-- src/dogdb/proxy/connection.py).
use dogdb.Prelude.{
  ℕ, String, ◌≡◌, refl, ap, ◌∙◌, Bool, true, false, not, ◌&&◌, List, [], Option, none, some,
}
use dogdb.Prelude.Dict.{Dict}
use dogdb.Models.{
  Error, DogDbError, ErrorKind, Fault, Decision, LogicalResult, sloth, bark, guard_bowl, ignore,
  dolly, before_execute,
}
use dogdb.Platform.{Platform, derived_index}
use dogdb.EventLog.{Event, Detail}
use dogdb.Policy.{
  FaultPolicy, FaultTaxonomy, taxonomy_of, before_execute_error, before_execute_priority,
}
use dogdb.Session.{Config, Session}
use dogdb.Exec.{Result, err, ◌>>=◌, raise, gets}
use dogdb.Exec.Gives.{continue-ok}
use dogdb.Faults.Shape.{Returns-event}
use dogdb.Exec.Keeps.{
  Keeps, keeps_rules, Keeps-option, Keeps-raise, Keeps-bind, Keeps-gets, Keeps-modify, Keeps-pure,
}
use dogdb.Faults.{select_candidate}
use dogdb.Faults.Record.{event, log_event, debug_decision, error_of, raise_from_event}
use dogdb.Faults.OnResult.{sleep, not_fired, block, before_execute_with, run_before_execute}
use dogdb.Engine.{World}
use dogdb.Engine.Execute.{
  Statement, evaluate_before, before_phase, execute_decided, is_scoped, debug_or_weight, decision,
  capped_read,
}

-- The number of calls that the backend has had.
abbrev Calls : ℕ → Session → Type 0
Calls n s = s.backend_calls ≡ n

module _ {n : ℕ} where
  Calls-derived_index :
      (p : Platform) (d : Decision) (tag : String) (k : ℕ)
      → Keeps (Calls n) (derived_index p d tag k)
  unfolding derived_index
  Calls-derived_index p d tag k = search keeps_rules

  Calls-log_event : (e : Event) → Keeps (Calls n) (log_event e)
  unfolding log_event
  Calls-log_event e = record { at = λ s h. h }

  Calls-sleep : (ms : ℕ) → Keeps (Calls n) (sleep ms)
  unfolding sleep
  Calls-sleep ms = record { at = λ s h. h }

  Calls-raise_from_event :
      {A : Type 0} (k : ErrorKind) (e : Event) (retryable : Bool) (delivered : Option ℕ)
      → Keeps (Calls n) (raise_from_event {A = A} k e retryable delivered)
  unfolding raise_from_event
  Calls-raise_from_event k e retryable delivered = search keeps_rules

ruleset calls_rules =
    (keeps_rules, Calls-derived_index, Calls-log_event, Calls-sleep, Calls-raise_from_event, refl)

module _ {n : ℕ} (p : Platform) (c : Config) where
  Calls-event :
      (d : Decision) (f : Fault) (outcome : String) (details : Dict Detail)
      → Keeps (Calls n) (event p c d f outcome details)
  unfolding event
  Calls-event d f outcome details = Keeps-option _ _ _ (Keeps-raise _) (λ t.
      Keeps-bind _ _ (Keeps-gets _) (λ id.
        Keeps-bind _ _ (Calls-log_event _)
          (λ e. Keeps-bind _ _ (Keeps-modify _ (λ s h. h)) (λ u. Keeps-pure e))))

  Calls-debug_decision : (d : Decision) (l : List Fault) → Keeps (Calls n) (debug_decision p c d l)
  unfolding debug_decision
  Calls-debug_decision d l = search calls_rules depth 12

  Calls-not_fired : (r : Bool) (d : Decision) → Keeps (Calls n) (not_fired p c r d)
  unfolding not_fired
  Calls-not_fired r d = search (calls_rules, Calls-debug_decision) depth 12

  Calls-block :
      (o : Option ErrorKind) (f : Fault) (r : Bool) (d : Decision)
      → Keeps (Calls n) (block p c o f r d)
  unfolding block
  Calls-block (some kind) f r d = search (calls_rules, Calls-event) depth 12
  Calls-block none f r d = Calls-not_fired r d

  Calls-before_execute_with :
      (o : Option Fault) (r : Bool) (d : Decision) → Keeps (Calls n) (before_execute_with p c o r d)
  unfolding before_execute_with
  Calls-before_execute_with (some sloth) r d = search (calls_rules, Calls-event) depth 12
  Calls-before_execute_with (some f) r d = Calls-block _ f r d
  Calls-before_execute_with none r d = Calls-not_fired r d

  Calls-run_before_execute :
      (r : Bool) (d : Decision) → Keeps (Calls n) (run_before_execute p c r d)
  unfolding run_before_execute
  Calls-run_before_execute r d = record { at = λ s h. (Calls-before_execute_with _ r d).at s h }

  Calls-evaluate_before : (b : Bool) (st : Statement) → Keeps (Calls n) (evaluate_before p c b st)
  unfolding evaluate_before
  Calls-evaluate_before true st = search (calls_rules, Calls-run_before_execute) depth 12
  Calls-evaluate_before false st = search calls_rules

  Calls-before_phase : (st : Statement) → Keeps (Calls n) (before_phase p c st)
  unfolding before_phase
  Calls-before_phase st = search (calls_rules, Calls-evaluate_before) depth 12

-- The answer to a statement that was blocked: the fault's error, which a client may retry.
abbrev pub IsBlocked : ErrorKind → Result LogicalResult → Type 0
IsBlocked kind r = (e : DogDbError) × (e.kind ≡ kind) × (e.retryable ≡ true) × (r ≡ err (dolly e))

taxonomy_of-blocked :
    (policy : FaultPolicy) (f : Fault) (kind : ErrorKind)
    → before_execute_error f ≡ some kind
    → (t : FaultTaxonomy) × (taxonomy_of policy f ≡ some t)
unfolding taxonomy_of before_execute_error
taxonomy_of-blocked policy bark kind h = (_, refl)
taxonomy_of-blocked policy guard_bowl kind h = (_, refl)
taxonomy_of-blocked policy ignore kind h = (_, refl)
taxonomy_of-blocked policy f kind h = cc h

before_execute_with-block :
    (p : Platform) (c : Config) (f : Fault) (kind : ErrorKind) (r : Bool) (d : Decision)
    → before_execute_error f ≡ some kind
    → before_execute_with p c (some f) r d ≡ block p c (some kind) f r d
unfolding before_execute_with before_execute_error
before_execute_with-block p c sloth kind r d h = cc h
before_execute_with-block p c f kind r d h = ap (λ o. block p c o f r d) h

block-error :
    (p : Platform) (c : Config) (f : Fault) (kind : ErrorKind) (r : Bool) (d : Decision)
    (s : Session)
    → before_execute_error f ≡ some kind
    → (e : DogDbError) × (e.kind ≡ kind)
      × (e.retryable ≡ true)
      × ((block p c (some kind) f r d s).0 ≡ err (dolly e))
unfolding block raise_from_event raise ◌>>=◌
block-error p c f kind r d s h =
    let (t, e) = taxonomy_of-blocked c.policy f kind h in
    let recorded = Returns-event p c d f "not_executed" [] t e in
    (
      error_of kind (recorded.value s) true none,
      refl,
      refl,
      ap (λ x. x.0)
          (continue-ok (event p c d f "not_executed" [] s).0 (recorded.value s) _
            (event p c d f "not_executed" [] s).1 (recorded.returns s)),
    )

both_true : (a b : Bool) → a ≡ true → b ≡ true → (a && b) ≡ true
both_true true b h k = k
both_true false b h k = h

evaluate_before-err :
    (p : Platform) (c : Config) (st : Statement) (s : Session) (x : Error)
    → (run_before_execute p c (not (capped_read p c st)) (decision p c st before_execute) s).0
      ≡ err x
    → (evaluate_before p c true st s).0 ≡ err x
unfolding evaluate_before ◌>>=◌
evaluate_before-err p c st s x h = rw h refl

module _ (p : Platform) (c : Config) (st : Statement) (s : Session) (f : Fault)
    (kind : ErrorKind) where
  run_before_execute-block :
      (r : Bool) (d : Decision)
      → select_candidate p c.policy s.mood d before_execute_priority before_execute ≡ some f
      → before_execute_error f ≡ some kind
      → run_before_execute p c r d s ≡ block p c (some kind) f r d s
  unfolding run_before_execute
  run_before_execute-block r d selected blocks =
      ap (λ o. before_execute_with p c o r d s) selected
      ∙ ap (λ m. m s) (before_execute_with-block p c f kind r d blocks)

  before_phase-error :
      is_scoped p c st ≡ true
      → debug_or_weight p c before_execute_priority s ≡ true
      → select_candidate p c.policy s.mood
          (decision p c st before_execute)
          before_execute_priority
          before_execute
        ≡ some f
      → before_execute_error f ≡ some kind
      → (e : DogDbError) × (e.kind ≡ kind)
        × (e.retryable ≡ true)
        × ((before_phase p c st s).0 ≡ err (dolly e))
  unfolding before_phase ◌>>=◌ gets
  before_phase-error scoped weighted selected blocks =
      let r = not (capped_read p c st) in
      let d = decision p c st before_execute in
      let (e, same, retry, q) = block-error p c f kind r d s blocks in
      (
        e,
        same,
        retry,
        ap (λ b. (evaluate_before p c b st s).0) (both_true _ _ scoped weighted)
            ∙ (evaluate_before-err p c st s (dolly e)
                (ap (λ x. x.0) (run_before_execute-block r d selected blocks) ∙ q)),
      )

  -- A statement in scope, in a session with a weight or in debug mode, for which BARK, GUARD_BOWL or
  -- IGNORE is selected: `execute` raises that fault's error, which says that it may be retried, and
  -- the backend is not called.
  pub execute_decided-IsBlocked :
      (w : World)
      → is_scoped p c st ≡ true
      → debug_or_weight p c before_execute_priority s ≡ true
      → select_candidate p c.policy s.mood
          (decision p c st before_execute)
          before_execute_priority
          before_execute
        ≡ some f
      → before_execute_error f ≡ some kind
      → IsBlocked kind (execute_decided p c w st s).0
        × ((execute_decided p c w st s).1.backend_calls ≡ s.backend_calls)
  unfolding execute_decided ◌>>=◌
  execute_decided-IsBlocked w scoped weighted selected blocks =
      let (e, same, retry, q) = before_phase-error scoped weighted selected blocks in
      ((e, same, retry, rw q refl), rw q ((Calls-before_phase p c st).at s refl))
