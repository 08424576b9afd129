-- ===== src/Wrap/Sessions.antt =====
-- Sessions from `wrap` on (proxy/connection.py of src/dogdb): what a client makes, and all its calls.
use dogdb.Prelude.{◌≡◌, List, map}
use dogdb.Prelude.Dict.{values}
use dogdb.Platform.{Platform, IsDigest}
use dogdb.House.{rebuild_house}
use dogdb.House.Valid.{IsValid}
use dogdb.House.Projection.{summary}
use dogdb.Exec.{ok}
use dogdb.Settings.Usable.{HasLiterals}
use dogdb.Settings.Probable.{HasUnit}
use dogdb.Engine.{World}
use dogdb.Engine.Logged.{IsNumbered}
use dogdb.Engine.Calls.{Call, run, house_of_log, log-IsNumbered}
use dogdb.Wrap.{Connection, Options, Wrapped, wrap}
use dogdb.Wrap.Ready.{wrap-IsReady}

-- The state of a client's session agrees with its log.
pub record Agrees (p : Platform) (w : Wrapped) (b : World) (l : List Call) : Type 0 where
  pub valid : IsValid (run p w.config b l w.session).house
  pub rebuilt :
      rebuild_house (run p w.config b l w.session).events.events
      ≡ map summary (values (run p w.config b l w.session).house.treasures)
  pub numbered : IsNumbered (run p w.config b l w.session).events

-- For `wrap` without `log_path` and with limits (`max_intervention_rows`, `house_limit`) that are not
-- negative, whatever its other arguments: if it makes a session, then whatever calls follow and
-- whichever of them raise: the house is valid, the log alone tells what is in it, in its order, and the events
-- of the log are numbered 1, 2, 3, ….
pub wrap-Agrees :
    (p : Platform)
    → IsDigest p
    → HasLiterals p
    → HasUnit p
    → (connection : Connection) (o : Options) (w : Wrapped) → wrap p connection o ≡ ok w
    → (b : World) (l : List Call) → Agrees p w b l
wrap-Agrees p g literals unit connection o w e b l =
    let ready = wrap-IsReady p literals unit connection o w e in
    let (valid, rebuilt) = house_of_log p w.config b g l w.session ready.housed in
    record {
      valid = valid;
      rebuilt = rebuilt;
      numbered = log-IsNumbered p w.config b g l w.session ready.numbered;
    }
