-- ===== src/EventLog.antt =====
-- core/event_log.py of src/dogdb, without a file: `Event`, and the log of a session.
pub mod Whole
use dogdb.Prelude.{ℕ, ◌+◌, String, Option, List, [], ◌∷◌, ◌++◌}
use dogdb.Prelude.Dict.{Dict}
use dogdb.Models.{Fault, Phase}

pub data EventType : Type 0 where
  fault_injected treasure_returned mood_changed limit_exceeded decision_evaluated : EventType

-- A value of an event's details.
pub data Detail : Type 0 where
  num : ℕ → Detail
  str : String → Detail
  nums : List ℕ → Detail
  faults : List Fault → Detail

pub record Event : Type 0 where
  pub event_id : String
  pub session_id : String
  pub seq : ℕ
  pub event_type : EventType
  pub fault : Option Fault
  pub phase : Option Phase
  pub template_fingerprint : Option String
  pub parameter_fingerprint : Option String
  pub occurrence : Option ℕ
  pub decision_key : Option String
  pub outcome : Option String
  pub details : Dict Detail
  pub category : Option String
  pub severity : Option String

pub record EventLog : Type 0 where
  pub session_id : String
  pub seq : ℕ
  pub events : List Event

abbrev pub new : String → EventLog
new session_id = record { session_id = session_id; seq = 0; events = [] }

-- EventLog.next_seq
unfoldable pub next_seq : EventLog → ℕ
next_seq log = log.seq + 1

-- EventLog.append: the log sets the session and the sequence number of the event that it is given.
unfoldable pub stamp : EventLog → Event → Event
stamp log e = record e { session_id = log.session_id; seq = log.seq + 1 }

unfoldable pub append : EventLog → Event → EventLog
unfolding stamp
append log e = record log { seq = log.seq + 1; events = log.events ++ stamp log e ∷ [] }
