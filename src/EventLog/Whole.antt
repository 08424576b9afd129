-- ===== src/EventLog/Whole.antt =====
-- What the events of core/event_log.py in src/dogdb have to have, by their type.
use dogdb.Prelude.{Option, none, some, [], ◌∷◌, All, All-append}
use dogdb.EventLog.{
  EventLog, Event, EventType, fault_injected, treasure_returned, mood_changed, limit_exceeded,
  decision_evaluated, append, stamp,
}

-- The value is there.
abbrev pub Present {ℓ} : {A : Type ℓ} → Option A → Type 0
Present none = ⊥
Present (some a) = Unit

-- What says of which decision the event is.
abbrev pub HasContext : Event → Type 0
HasContext e =
    Present e.phase
    × Present e.template_fingerprint
    × Present e.parameter_fingerprint
    × Present e.occurrence
    × Present e.decision_key
    × Present e.outcome

abbrev pub Requires : EventType → Event → Type 0
Requires fault_injected e = Present e.fault × HasContext e
Requires treasure_returned e = Present e.fault × HasContext e
Requires mood_changed e = Unit
Requires limit_exceeded e = HasContext e
Requires decision_evaluated e = HasContext e

-- The event has what its type requires.
abbrev pub IsWhole : Event → Type 0
IsWhole e = Requires e.event_type e

-- The log sets nothing that is required.
pub Requires-stamp :
    (t : EventType) (l : EventLog) (e : Event) → Requires t e → Requires t (stamp l e)
unfolding stamp
Requires-stamp fault_injected l e h = h
Requires-stamp treasure_returned l e h = h
Requires-stamp mood_changed l e h = h
Requires-stamp limit_exceeded l e h = h
Requires-stamp decision_evaluated l e h = h

pub append-IsWhole :
    (l : EventLog) (e : Event) → All IsWhole l.events → IsWhole e → All IsWhole (append l e).events
unfolding append stamp
append-IsWhole l e h k =
    All-append IsWhole l.events (stamp l e ∷ []) h (Requires-stamp e.event_type l e k, tt)
