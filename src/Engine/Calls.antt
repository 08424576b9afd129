-- ===== src/Engine/Calls.antt =====
-- What a program can do with a session (proxy/connection.py of src/dogdb), in any order: execute,
-- executemany and the manual returns; a call that raises leaves the session as it had become.
use dogdb.Prelude.{refl, String, ◌≡◌, ◌++◌, List, [], ◌∷◌, map}
use dogdb.Prelude.Dict.{values}
use dogdb.Platform.{Platform, IsDigest}
use dogdb.EventLog.{Event}
use dogdb.House.{rebuild_house}
use dogdb.House.Valid.{IsValid}
use dogdb.House.Projection.{summary}
use dogdb.Session.{Config, Session}
use dogdb.Engine.{Params, World, return_treasure, return_all}
use dogdb.Engine.Execute.{execute, execute_many}
use dogdb.Engine.Step.{whole, Reach, here, Reach_induction}
use dogdb.Engine.Reaches.Returns.{Reaches-return_treasure, Reaches-return_all}
use dogdb.Engine.Reaches.Execute.{Reaches-execute, Reaches-execute_many}
use dogdb.Engine.Housed.{IsHoused, IsHoused-step, rebuild-IsHoused}
use dogdb.Engine.Logged.{IsNumbered, IsNumbered-step, Extends-Reach}

pub data Call : Type 0 where
  run_execute : String → Params → Call
  run_execute_many : Call
  run_return : String → Call
  run_return_all : Call

module _ (p : Platform) (c : Config) (w : World) where
  -- The session after a call, whether it returned or raised.
  unfoldable pub perform : Call → Session → Session
  perform (run_execute sql params) s = (execute p c w sql params s).1
  perform run_execute_many s = (execute_many p c w s).1
  perform (run_return id) s = (return_treasure p id s).1
  perform run_return_all s = (return_all p s).1

  unfoldable pub run : List Call → Session → Session
  unfolding perform
  run [] s = s
  run (k ∷ l) s = run l (perform k s)

module _ (p : Platform) (c : Config) (w : World) (g : IsDigest p) where
  Reach-perform :
      (k : Call) {o : Session} (s : Session) → Reach whole o s → Reach whole o (perform p c w k s)
  unfolding perform
  Reach-perform (run_execute sql params) s r = (Reaches-execute p c w g refl refl sql params).at s r
  Reach-perform run_execute_many s r = (Reaches-execute_many p c w g refl).at s r
  Reach-perform (run_return id) s r = (Reaches-return_treasure p id).at s r
  Reach-perform run_return_all s r = (Reaches-return_all p).at s r

  Reach-run :
      (l : List Call) {o : Session} (s : Session) → Reach whole o s → Reach whole o (run p c w l s)
  unfolding run
  Reach-run [] s r = r
  Reach-run (k ∷ l) s r = Reach-run l (perform p c w k s) (Reach-perform k s r)

  -- All that a session goes through is steps.
  pub run-Reach : (l : List Call) (s : Session) → Reach whole s (run p c w l s)
  run-Reach l s = Reach-run l s here

  -- From a session whose house is valid and is what `rebuild_house` finds in its log, whatever
  -- calls are made and whichever of them raise: the house is valid (a treasure stands under its own
  -- id, no two share a location, there are at most `capacity`), and `rebuild_house` of the log lists
  -- the treasures of the house, in the house's order.
  pub house_of_log :
      (l : List Call) (s : Session)
      → IsHoused s
      → IsValid (run p c w l s).house
        × (rebuild_house (run p c w l s).events.events
            ≡ map summary (values (run p c w l s).house.treasures))
  house_of_log l s h =
      let h' = Reach_induction IsHoused-step (run-Reach l s) h in (h'.valid, rebuild-IsHoused h')

  -- From a session whose log is numbered, whatever calls are made and whichever of them raise: the
  -- events are numbered 1, 2, 3, … in order under the session's id, and the log's counter is their
  -- number.
  pub log-IsNumbered :
      (l : List Call) (s : Session) → IsNumbered s.events → IsNumbered (run p c w l s).events
  log-IsNumbered l s =
      Reach_induction {P = λ t. IsNumbered t.events} IsNumbered-step (run-Reach l s)

  -- Whatever calls are made and whichever of them raise: the log is the old one with events added
  -- at its end; no event is changed or dropped.
  pub log_grows :
      (l : List Call) (s : Session)
      → (more : List Event) × ((run p c w l s).events.events ≡ s.events.events ++ more)
  log_grows l s = Extends-Reach (run-Reach l s)
