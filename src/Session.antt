-- ===== src/Session.antt =====
-- What a session is made with, and what it changes: the fields of `_InterventionEngine`
-- (proxy/connection.py of src/dogdb) and of the objects that it holds.
use dogdb.Prelude.{ℕ, String, Bool, Option, List}
use dogdb.Prelude.Dict.{Dict}
use dogdb.EventLog.{EventLog}
use dogdb.House.{HouseLedger}
use dogdb.AutoReturn.{AutoReturnScheduler}
use dogdb.Mood.{MoodEngine}
use dogdb.StaleCache.{StaleReadCache}
use dogdb.Stats.{StatsTracker}
use dogdb.Policy.{FaultPolicy}
use dogdb.Exec.{Exec}

-- on_passthrough
pub data OnPassthrough : Type 0 where
  allow warn error : OnPassthrough

pub record Config : Type 0 where
  pub seed : String
  pub session_id : String
  pub include_params : Bool
  pub hmac_key : List ℕ
  pub policy : FaultPolicy
  pub max_intervention_rows : ℕ
  pub max_result_rows : Option ℕ
  pub only_tables : Option (List String)
  pub exclude_tables : Option (List String)
  pub debug : Bool
  pub on_passthrough : OnPassthrough

-- The state of a session. `slept` has the arguments of the clock's calls in milliseconds, `warnings`
-- the reasons of the warnings, and `backend_calls` counts the calls that reached the backend.
pub record Session : Type 0 where
  pub events : EventLog
  pub house : HouseLedger
  pub auto_return : Option AutoReturnScheduler
  pub mood : Option MoodEngine
  pub stale_cache : Option StaleReadCache
  pub stats : StatsTracker
  pub occurrences : Dict ℕ
  pub logical_tick : Option ℕ
  pub slept : List ℕ
  pub warnings : List String
  pub backend_calls : ℕ

abbrev pub Run : Type 0 → Type 0
Run = Exec Session

-- The writes of a session's parts.
abbrev pub set_events : EventLog → Session → Session
set_events log s = record s { events = log }

abbrev pub set_house : HouseLedger → Session → Session
set_house h s = record s { house = h }

abbrev pub set_stats : StatsTracker → Session → Session
set_stats t s = record s { stats = t }

abbrev pub set_auto_return : Option AutoReturnScheduler → Session → Session
set_auto_return a s = record s { auto_return = a }

abbrev pub set_stale_cache : Option StaleReadCache → Session → Session
set_stale_cache c s = record s { stale_cache = c }
