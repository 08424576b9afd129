-- ===== src/Faults/Record.antt =====
-- The events and the exceptions of the fault engine (core/faults.py of src/dogdb): `_event`,
-- `_raise_from_event`, `_debug_decision`, `_limit_exceeded`, `raise_result_limit_exceeded`.
use Prim.Native.String.{◌++◌}
use dogdb.Prelude.{ℕ, String, Bool, Option, none, some, List, [], ◌∷◌, if◌then◌else◌}
use dogdb.Prelude.Dict.{Dict}
use dogdb.Prelude.Show.{show}
use dogdb.Models.{Fault, fault_name, Decision, DogDbError, ErrorKind, dolly, key_error}
use dogdb.Platform.{Platform, deterministic_id}
use dogdb.EventLog.{
  EventLog, Event, EventType, fault_injected, decision_evaluated, limit_exceeded, Detail, faults,
  append, stamp, next_seq,
}
use dogdb.Stats.{record_intervention}
use dogdb.Policy.{FaultTaxonomy, taxonomy_of}
use dogdb.Session.{Config, Run}
use dogdb.Exec.{pure, raise, gets, modify, ok, ◌>>=◌, ◌>>◌}

-- An event about a decision; the log sets the session and the sequence number.
abbrev pub about :
    EventType
    → Decision
    → String
    → Option Fault
    → String
    → Dict Detail
    → Option FaultTaxonomy
    → Event
about kind d id fault outcome details taxonomy = record {
  event_id = id;
  session_id = "";
  seq = 0;
  event_type = kind;
  fault = fault;
  phase = some d.phase;
  template_fingerprint = some d.template_fingerprint;
  parameter_fingerprint = some d.parameter_fingerprint;
  occurrence = some d.occurrence;
  decision_key = some d.decision_key;
  outcome = some outcome;
  details = details;
  category = elim taxonomy [ none ↦ none | some t ↦ some t.category ];
  severity = elim taxonomy [ none ↦ none | some t ↦ some t.severity ];
}

-- deterministic_id(decision_key, f"event:{next_seq}:{tag}")
abbrev pub event_id_at : Platform → EventLog → String → String → String
event_id_at p log key tag =
    deterministic_id p key ("event:" ++ (show (next_seq log) ++ (":" ++ tag)))

-- EventLog.append, which returns the event as stored.
unfoldable pub log_event : Event → Run Event
log_event e s = (ok (stamp s.events e), record s { events = append s.events e })

-- The same, of an event that is made from the log.
unfoldable pub log_with : (EventLog → Event) → Run Event
unfolding log_event
log_with f s = log_event (f s.events) s

module _ (p : Platform) (c : Config) where
  -- FaultEngine._event, with the callback that counts the intervention
  unfoldable pub event : Decision → Fault → String → Dict Detail → Run Event
  event d fault outcome details = elim (taxonomy_of c.policy fault) [
    | none ↦ raise key_error
    | some t ↦ do
      id ← gets (λ s. event_id_at p s.events d.decision_key (fault_name fault))
      e ← log_event (about fault_injected d id (some fault) outcome details (some t))
      modify (λ s. record s { stats = record_intervention s.stats d.template_fingerprint })
      pure e
  ]

  -- The event of `_limit_exceeded` and of `raise_result_limit_exceeded`
  unfoldable pub limit_event : Decision → String → Dict Detail → Run Event
  limit_event d outcome details = do
    id ← gets (λ s. event_id_at p s.events d.decision_key "LIMIT")
    log_event (about limit_exceeded d id none outcome details none)

  -- FaultEngine._debug_decision
  unfoldable pub debug_decision : Decision → List Fault → Run (Unit {0})
  debug_decision d candidates =
      if c.debug
      then (do
        id ← gets (λ s. event_id_at p s.events d.decision_key "DECISION")
        log_event (
            about decision_evaluated d id none "not_injected" (("faults", faults candidates) ∷ [])
              none)
        pure tt)
      else pure tt

-- FaultEngine._raise_from_event
abbrev pub error_of : ErrorKind → Event → Bool → Option ℕ → DogDbError
error_of kind e retryable delivered_rows = record {
  kind = kind;
  event_id = e.event_id;
  fault = e.fault;
  phase = e.phase;
  retryable = retryable;
  outcome = e.outcome;
  category = e.category;
  severity = e.severity;
  delivered_rows = delivered_rows;
}

unfoldable pub raise_from_event : {A : Type 0} → ErrorKind → Event → Bool → Option ℕ → Run A
raise_from_event kind e retryable delivered = raise (dolly (error_of kind e retryable delivered))
