-- ===== src/Tests/Runs.antt =====
-- Runs of whole sessions, and the properties of sessions at them.
use dogdb.Prelude.{ℕ, ◌≡◌, ◌++◌, refl, List, [], ◌∷◌, map, arith, length}
use dogdb.Prelude.Dict.{values}
use dogdb.Models.{stash}
use dogdb.EventLog.{Event}
use dogdb.House.{project, rebuild_house}
use dogdb.House.Valid.{IsValid}
use dogdb.House.Projection.{summary}
use dogdb.Session.{Session}
use dogdb.Engine.{positional}
use dogdb.Engine.Calls.{
  Call, run_execute, run_execute_many, run_return_all, run, house_of_log, log-IsNumbered, log_grows,
}
use dogdb.Engine.Housed.{IsHoused}
use dogdb.Engine.Logged.{IsNumbered}
use dogdb.Tests.{platform, digest, config_of, world, session}

-- Two queries, of which STASH takes a row of the first, and the return of everything.
abbrev calls : List Call
calls =
    run_execute "select 1" (positional [])
    ∷ run_execute_many
    ∷ run_execute "select 1" (positional [])
    ∷ run_return_all
    ∷ []

session-IsHoused : IsHoused session
unfolding project
session-IsHoused = record {
  valid = record { keyed = tt; located = λ id t e. cc; bounded = omega arith };
  rebuilt = refl;
}

session-IsNumbered : IsNumbered session.events
session-IsNumbered = record { last = refl; numbered = tt }

abbrev after : Session
after = run platform (config_of stash) world calls session

house_of_log_example :
    IsValid after.house
    × (rebuild_house after.events.events ≡ map summary (values after.house.treasures))
house_of_log_example =
    house_of_log platform (config_of stash) world digest calls session session-IsHoused

log-IsNumbered_example : IsNumbered after.events
log-IsNumbered_example =
    log-IsNumbered platform (config_of stash) world digest calls session session-IsNumbered

log_grows_example : (more : List Event) × (after.events.events ≡ session.events.events ++ more)
log_grows_example = log_grows platform (config_of stash) world digest calls session

abbrev after_one : Session
after_one =
    run platform (config_of stash) world (run_execute "select 1" (positional []) ∷ []) session

one_stashed : ℕ
one_stashed = length after_one.house.treasures

four_events : ℕ
four_events = length after.events.events
