-- ===== src/Tests/Filed.antt =====
-- A session with its log on a file, at a concrete input.
use dogdb.Prelude.{refl, none, some, List, [], ◌∷◌, map, All}
use dogdb.Models.{stash}
use dogdb.EventLog.{Event}
use dogdb.EventLog
use dogdb.House.{Treasure, return_all}
use dogdb.Exec.{exec}
use dogdb.Session.{Session}
use dogdb.Engine
use dogdb.Engine.{log_all, log_return, cancel_return, empty_house}
use dogdb.Faults.Record.{log_event}
use dogdb.Engine.Calls.{Call, run, perform, run_return_all}
use dogdb.Engine.Written.{IsOnFile, run-IsOnFile}
use dogdb.Store.{object}
use dogdb.Store.Payload.{payload}
use dogdb.Store.Stored.{stored}
use dogdb.Store.File.{Codec, IsLoaded, open_log, read_events, read_lines, all_lines, max_or_zero}
use dogdb.Tests.{platform, digest, config_of, world, session, row_of}

abbrev treasure : Treasure
treasure = record {
  treasure_id = "t";
  template_fingerprint = "a";
  row_index = 1;
  row = row_of 2;
  event_id = "e";
  parameter_fingerprint = "p";
  occurrence = 1;
  decision_key = "k";
}

-- A session with one treasure in its house.
abbrev stashed : Session
stashed = record session {
  house = record {
    capacity = 5;
    treasures = ("t", treasure) ∷ [];
    by_location = [];
    released_templates = [];
  };
}

abbrev calls : List Call
calls = run_return_all ∷ run_return_all ∷ []

abbrev logged : List Event
logged = (run platform (config_of stash) world calls stashed).events.events

-- Every text is loaded as the first of these events.
abbrev codec : Codec
codec = record {
  loads = λ s. elim logged [ [] ↦ none | e ∷ l ↦ some (object (payload (stored e))) ];
  dumps = λ j. "{}";
  repr = λ o. "";
}

logged-IsLoaded : All (IsLoaded codec) (map stored logged)
unfolding run perform Engine.return_all empty_house return_all log_all log_return cancel_return
    log_event EventLog.append EventLog.stamp exec
logged-IsLoaded = (refl, tt)

run-IsOnFile_example : IsOnFile codec "test" none logged
unfolding open_log read_events read_lines all_lines max_or_zero
run-IsOnFile_example =
    run-IsOnFile platform (config_of stash) world digest codec "test" 0 none calls stashed refl refl
      tt logged-IsLoaded
