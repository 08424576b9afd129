-- ===== src/Engine/Step.antt =====
-- The changes that the operations of src/dogdb/proxy/connection.py and core/faults.py make to a
-- session, as a step relation: a step is one write, or a write of the house with the event that
-- reports it. Everything that a session goes through is a sequence of such steps.
use mathlib.Core.Option
use dogdb.Prelude.{Bool, true, str_eq, ℕ, ◌+◌, String, ◌≡◌, ◌≢◌, false, some, List, [], ◌∷◌, ◌++◌}
use dogdb.Prelude.Dict.{lookup, insert, values}
use dogdb.Models.{stash, Decision, LogicalResult}
use dogdb.Platform.{Platform}
use dogdb.EventLog.{EventLog, Event, fault_injected, treasure_returned, nums, str, append}
use dogdb.EventLog.Whole.{IsWhole}
use dogdb.House
use dogdb.House.{HouseLedger, Treasure, refuses}
use dogdb.AutoReturn
use dogdb.AutoReturn.{AutoReturnScheduler}
use dogdb.Mood
use dogdb.StaleCache
use dogdb.StaleCache.{StaleReadCache}
use dogdb.Stats.{StatsTracker, count_at}
use dogdb.Session.{Session}

-- The event of a STASH that took the treasure.
pub record Reports (e : Event) (t : Treasure) : Type 0 where
  pub whole : IsWhole e
  pub named : str_eq t.treasure_id "" ≡ false
  pub event_type : e.event_type ≡ fault_injected
  pub fault : e.fault ≡ some stash
  pub template : e.template_fingerprint ≡ some t.template_fingerprint
  pub event_id : e.event_id ≡ t.event_id
  pub details :
      e.details ≡ ("row_indices", nums (t.row_index ∷ [])) ∷ ("treasure_id", str t.treasure_id) ∷ []

-- The event of a return of the treasure.
pub record ReportsReturn (e : Event) (t : Treasure) : Type 0 where
  pub whole : IsWhole e
  pub event_type : e.event_type ≡ treasure_returned
  pub details : e.details ≡ ("treasure_id", str t.treasure_id) ∷ []

-- An event that reports no change of the house.
pub record IsPlain (e : Event) : Type 0 where
  pub whole : IsWhole e
  pub not_return : e.event_type ≢ treasure_returned
  pub not_stash : e.event_type ≡ fault_injected → e.fault ≢ some stash

-- One event for each treasure, in order.
pub data ReportsAll : List Event → List Treasure → Type 0 where
  none_left : ReportsAll [] []
  one_more :
      {e : Event} {t : Treasure} {es : List Event} {ts : List Treasure}
      → ReportsReturn e t
      → ReportsAll es ts
      → ReportsAll (e ∷ es) (t ∷ ts)

abbrev pub append_all : EventLog → List Event → EventLog
append_all log [] = log
append_all log (e ∷ es) = append_all (append log e) es

-- What the steps may do: count occurrences and fill the stale cache, and move the clock and the mood.
pub record Part : Type 0 where
  pub counts : Bool
  pub ticks : Bool

-- All of the engine; all but the clock; and all but the counts.
abbrev pub whole : Part
whole = record { counts = true; ticks = true }

abbrev pub untimed : Part
untimed = record { counts = true; ticks = false }

abbrev pub uncounted : Part
uncounted = record { counts = false; ticks = true }

pub data Step (part : Part) (s : Session) : Session → Type 0 where
  log : (e : Event) → IsPlain e → Step part s (record s { events = append s.events e })
  hide :
      (t : Treasure) (e : Event)
      → refuses s.house t ≡ false
      → Reports e t
      → Step part s (record s { house = (House.add s.house t).0; events = append s.events e })
  give_back :
      (id : String) (t : Treasure) (e : Event)
      → lookup id s.house.treasures ≡ some t
      → ReportsReturn e t
      → Step part s
          (record s { house = (House.return_treasure s.house id).0; events = append s.events e })
  give_all_back :
      (es : List Event)
      → ReportsAll es (values s.house.treasures)
      → Step part s
          (record s { house = (House.return_all s.house).0; events = append_all s.events es })
  release :
      (template : String)
      → Step part s (record s { house = (House.consume_release s.house template).0 })
  schedule :
      (p : Platform) (id key : String)
      → Step part s (record s {
        auto_return = Option.map (λ a. (AutoReturn.schedule p a id key).0) s.auto_return;
      })
  cancel :
      (id : String)
      → Step part s
          (record s { auto_return = Option.map (λ a. AutoReturn.cancel a id) s.auto_return })
  advance :
      (n : ℕ)
      → Step part s
          (record s { auto_return = Option.map (λ a. (AutoReturn.advance a n).0) s.auto_return })
  cache :
      part.counts ≡ true
      → (d : Decision) (r : LogicalResult)
      → Step part s
          (record s { stale_cache = Option.map (λ k. (StaleCache.add k d r).0) s.stale_cache })
  mood :
      part.ticks ≡ true
      → (p : Platform)
      → Step part s (record s { mood = Option.map (λ m. (Mood.advance p m).0) s.mood })
  stats : (t : StatsTracker) → Step part s (record s { stats = t })
  occur :
      part.counts ≡ true
      → (template : String)
      → Step part s (record s {
        occurrences = insert template (count_at template s.occurrences + 1) s.occurrences;
      })
  tick : part.ticks ≡ true → (n : ℕ) → Step part s (record s { logical_tick = some n })
  sleep : (ms : ℕ) → Step part s (record s { slept = s.slept ++ ms ∷ [] })
  warn : (w : List String) → Step part s (record s { warnings = w })
  backend : Step part s (record s { backend_calls = s.backend_calls + 1 })

pub data Reach (part : Part) (s : Session) : Session → Type 0 where
  here : Reach part s s
  next : {t u : Session} → Reach part s t → Step part t u → Reach part s u

pub Reach-trans : {part : Part} {s t u : Session} → Reach part s t → Reach part t u → Reach part s u
Reach-trans r here = r
Reach-trans r (next q st) = next (Reach-trans r q) st

-- What every step keeps, every reachable session has.
pub Reach_induction :
    {part : Part} {P : Session → Type 0}
    → ((s t : Session) → Step part s t → P s → P t)
    → {s t : Session} → Reach part s t
    → P s
    → P t
Reach_induction keep here h = h
Reach_induction keep (next {t = t} {u = u} r st) h = keep t u st (Reach_induction keep r h)
