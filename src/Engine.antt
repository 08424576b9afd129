-- ===== src/Engine.antt =====
-- `_InterventionEngine` of proxy/connection.py of src/dogdb: the path of a statement through the
-- faults and the backend; and the manual returns of `DollyNamespace`.
pub mod Execute
pub mod Step
pub mod Reaches
pub mod Housed
pub mod Logged
pub mod Calls
pub mod Passed
pub mod Ticks
pub mod Sticky
pub mod Clocked
pub mod Written
pub mod Cached
pub mod Transparent
pub mod Undisturbed
pub mod Blocked
use mathlib.Core.Option
use dogdb.Prelude.{
  ℕ, ◌+◌, String, Bool, true, false, not, Option, none, some, List, [], ◌∷◌, if◌then◌else◌, any,
  str_eq, ◌==◌,
}
use dogdb.Prelude.Dict.{insert}
use dogdb.Models.{
  LogicalResult, Phase, manual_return, auto_return, stash, passthrough_error, assertion_error,
}
use dogdb.Platform.{Platform}
use dogdb.EventLog.{EventLog, Event, treasure_returned, mood_changed, str, num}
use dogdb.House
use dogdb.House.{HouseLedger, Treasure}
use dogdb.AutoReturn
use dogdb.AutoReturn.{AutoReturnScheduler}
use dogdb.Mood
use dogdb.Mood.{MoodEngine, MoodTransition, Mood, calm, sleepy, zoomy}
use dogdb.Sql.{SqlKind, select, unknown, SqlClassification}
use dogdb.Stats.{
  Reason, unsupported_parameter_type, named_parameters, unknown_sql, transaction_statement,
  reason_name, count_at,
}
use dogdb.Fingerprints.{Param, params_in_fingerprint_domain}
use dogdb.Adapter.{Reply}
use dogdb.Session.{OnPassthrough, allow, warn, error, Config, Session, Run}
use dogdb.Exec.{when, Result, pure, raise, gets, modify, ok, ◌>>=◌, ◌>>◌}
use dogdb.Faults.Record.{log_with, event_id_at, log_event}

-- The parameters of a statement: positional (none at all is the empty list), or by name.
pub data Params : Type 0 where
  positional : List Param → Params
  named : Params

-- What the world gives: sqlglot's classification of a text, and the backend's answer to the n-th
-- call that reaches it.
pub record World : Type 0 where
  pub classify : String → SqlClassification
  pub backend : ℕ → Reply

unfoldable pub lift : {A : Type 0} → Result A → Run A
lift r s = (r, s)

-- The event of `_log_return`.
abbrev pub return_event : Platform → Phase → Treasure → EventLog → Event
return_event p phase t log = record {
  event_id = event_id_at p log t.decision_key "RETURN";
  session_id = "";
  seq = 0;
  event_type = treasure_returned;
  fault = some stash;
  phase = some phase;
  template_fingerprint = some t.template_fingerprint;
  parameter_fingerprint = some t.parameter_fingerprint;
  occurrence = some t.occurrence;
  decision_key = some t.decision_key;
  outcome = some "treasure_returned";
  details = ("treasure_id", str t.treasure_id) ∷ [];
  category = none;
  severity = none;
}

-- `dolly._log_return`
unfoldable pub log_return : Platform → Phase → Treasure → Run (Unit {0})
log_return p phase t = do e ← gets (λ s. return_event p phase t s.events); log_event e; pure tt

-- HouseLedger.return_treasure, on the session's house
unfoldable pub take_treasure : String → Run (Option Treasure)
take_treasure id s = (
  ok (House.return_treasure s.house id).1,
  record s { house = (House.return_treasure s.house id).0 },
)

unfoldable pub log_if_returned : Platform → Phase → Option Treasure → Run (Unit {0})
log_if_returned p phase none = pure tt
log_if_returned p phase (some t) = log_return p phase t

-- `if self._auto_return is not None: self._auto_return.cancel(treasure_id)`
unfoldable pub cancel_return : String → Run (Unit {0})
cancel_return id s =
    (ok tt, record s { auto_return = Option.map (λ a. AutoReturn.cancel a id) s.auto_return })

-- A treasure leaves the house, and the return is logged.
unfoldable pub give_back : Platform → Phase → String → Run (Option Treasure)
give_back p phase id = do t ← take_treasure id; log_if_returned p phase t; pure t

-- DollyNamespace.return_treasure
unfoldable pub return_treasure : Platform → String → Run (Option Treasure)
return_treasure p id = do cancel_return id; give_back p manual_return id

-- The loop of DollyNamespace.return_all.
unfoldable pub log_all : Platform → List Treasure → Run (Unit {0})
log_all p [] = pure tt
log_all p (t ∷ l) = do cancel_return t.treasure_id; log_return p manual_return t; log_all p l

unfoldable pub empty_house : Run (List Treasure)
empty_house s = (ok (House.return_all s.house).1, record s { house = (House.return_all s.house).0 })

-- DollyNamespace.return_all
unfoldable pub return_all : Platform → Run (List Treasure)
return_all p = do returned ← empty_house; log_all p returned; pure returned

-- The loop over the treasures that are due.
unfoldable pub return_due : Platform → List String → Run (Unit {0})
return_due p [] = pure tt
return_due p (id ∷ l) = do give_back p auto_return id; return_due p l

-- The treasures that are due at a tick; none without a scheduler.
abbrev pub due_at : ℕ → Option AutoReturnScheduler → List String
due_at tick none = []
due_at tick (some a) = (AutoReturn.advance a tick).1

unfoldable pub advance_auto_return : ℕ → Run (List String)
advance_auto_return tick s = (
  ok (due_at tick s.auto_return),
  record s { auto_return = Option.map (λ a. (AutoReturn.advance a tick).0) s.auto_return },
)

abbrev pub mood_name : Mood → String
mood_name calm = "CALM"
mood_name sleepy = "SLEEPY"
mood_name zoomy = "ZOOMY"

abbrev pub transition_of : Platform → Option MoodEngine → Option MoodTransition
transition_of p none = none
transition_of p (some m) = (Mood.advance p m).1

unfoldable pub advance_mood : Platform → Run (Option MoodTransition)
advance_mood p s =
    (ok (transition_of p s.mood), record s { mood = Option.map (λ m. (Mood.advance p m).0) s.mood })

-- The event of a change of mood.
abbrev pub mood_event : Platform → MoodTransition → EventLog → Event
mood_event p t log = record {
  event_id = event_id_at p log t.derivation_key "MOOD";
  session_id = "";
  seq = 0;
  event_type = mood_changed;
  fault = none;
  phase = none;
  template_fingerprint = none;
  parameter_fingerprint = none;
  occurrence = none;
  decision_key = none;
  outcome = none;
  details =
      ("from", str (mood_name t.previous))
      ∷ ("to", str (mood_name t.current))
      ∷ ("tick", num t.tick)
      ∷ [];
  category = none;
  severity = none;
}

unfoldable pub log_transition : Platform → Option MoodTransition → Run (Unit {0})
log_transition p none = pure tt
log_transition p (some t) = do log_with (mood_event p t); pure tt

-- `assert self._mood.tick == self._logical_tick`
abbrev pub ticks_agree : Session → ℕ → Bool
ticks_agree s tick = elim s.mood [ none ↦ true | some m ↦ m.tick == tick ]

-- The part of _begin_operation on the mood; `advance_mood` does nothing without one.
unfoldable pub mood_tick : Platform → ℕ → Run (Unit {0})
mood_tick p tick = do
  transition ← advance_mood p
  agree ← gets (λ s. ticks_agree s tick)
  if agree then log_transition p transition else raise assertion_error

unfoldable pub begin_tick : Platform → ℕ → Run (Unit {0})
begin_tick p tick = do
  modify (λ s. record s { logical_tick = some tick })
  due ← advance_auto_return tick
  return_due p due
  mood_tick p tick

unfoldable pub tick_from : Platform → Option ℕ → Run (Unit {0})
tick_from p none = pure tt
tick_from p (some tick) = begin_tick p (tick + 1)

-- _InterventionEngine._begin_operation
unfoldable pub begin_operation : Platform → Run (Unit {0})
begin_operation p = do tick ← gets (λ s. s.logical_tick); tick_from p tick

-- The reason for which a statement passes through, if any.
unfoldable pub passthrough_reason : SqlClassification → Params → Option Reason
passthrough_reason k named = some named_parameters
passthrough_reason k (positional values) = elim k.kind [
  | unknown ↦ some unknown_sql
  | _ ↦
      if k.is_transaction
      then some transaction_statement
      else if params_in_fingerprint_domain values
      then none
      else some unsupported_parameter_type
]

-- _ENFORCED_PASSTHROUGH_REASONS
abbrev pub is_enforced : Reason → Bool
is_enforced unknown_sql = true
is_enforced named_parameters = true
is_enforced unsupported_parameter_type = true
is_enforced _ = false

unfoldable pub enforce : OnPassthrough → Reason → Run (Unit {0})
enforce allow reason = pure tt
enforce warn reason = modify (λ s. record s { warnings = reason_name reason ∷ s.warnings })
enforce error reason = raise passthrough_error

-- _InterventionEngine._apply_passthrough_policy
unfoldable pub apply_passthrough_policy : Config → Reason → Run (Unit {0})
apply_passthrough_policy c reason = when (is_enforced reason) (enforce c.on_passthrough reason)

-- A call that reaches the backend.
unfoldable pub call_backend : (Reply → Result LogicalResult) → World → Run LogicalResult
call_backend read w s =
    (read (w.backend s.backend_calls), record s { backend_calls = s.backend_calls + 1 })

abbrev pub mem_text : String → List String → Bool
mem_text x l = any (str_eq x) l

abbrev pub intersects : List String → List String → Bool
intersects l m = any (λ x. mem_text x m) l

-- _InterventionEngine._scope_applies
unfoldable pub scope_applies : Config → Option (List String) → Bool
scope_applies c tables = elim c.only_tables [
  | some only ↦ elim tables [ none ↦ false | some t ↦ intersects t only ]
  | none ↦ (elim c.exclude_tables [
    | some excluded ↦ elim tables [ none ↦ true | some t ↦ not (intersects t excluded) ]
    | none ↦ true
  ])
]

abbrev pub is_select : SqlKind → Bool
is_select select = true
is_select _ = false

-- DecisionEngine.begin: the count of the template's occurrences
unfoldable pub begin : String → Run ℕ
begin template s =
    let n = count_at template s.occurrences + 1 in
    (ok n, record s { occurrences = insert template n s.occurrences })
