-- ===== src/Tests/Written.antt =====
-- The properties of log files, each at one input.
use dogdb.Prelude.{◌≡◌, refl, ℕ, true, none, some, List, [], ◌∷◌, ◌++◌, All, str_eq, if◌then◌else◌}
use dogdb.Prelude.Int.{pos, ◌+ℤ◌, ltb_ℤ}
use dogdb.Exec.{ok}
use dogdb.Store.{int, object, no_members, StoredEvent, get, v2_fields, from_dict}
use dogdb.Store.Payload.{members, payload}
use dogdb.Store.RoundTrip.{IsComplete, from_dict-payload}
use dogdb.Store.File.{
  File, Codec, FileLog, write_line, read_line, read_lines, read_events, is_of, open_log, stamp,
  append, max_or_zero, all_lines,
}
use dogdb.Store.Reads.{stamped}
use dogdb.Store.Kept.{IsKept, append_each-IsKept, read_lines_corrupt}
use dogdb.Store.Fresh.{open_log_fresh, append_unfinished}

-- A mood that changed.
abbrev event : ℕ → StoredEvent
event n = record {
  schema_version = pos 2;
  event_id = "e";
  session_id = "test";
  seq = pos n;
  event_type = "mood_changed";
  fault = none;
  phase = none;
  template_fingerprint = none;
  parameter_fingerprint = none;
  occurrence = none;
  decision_key = none;
  outcome = none;
  details = some no_members;
  category = none;
  severity = none;
}

-- The text of an event is its number, up to two; nothing else is loaded.
abbrev codec : Codec
codec = record {
  loads = λ s.
      if str_eq s "1"
      then some (object (payload (event 1)))
      else if str_eq s "2"
      then some (object (payload (event 2)))
      else none;
  dumps = λ j. elim j [
    | object m ↦ (elim (get "seq" m) [
      | some v ↦ (elim v [ int z ↦ (if ltb_ℤ z (pos 2) then "1" else "2") | _ ↦ "" ])
      | none ↦ ""
    ])
    | _ ↦ ""
  ];
  repr = λ o. "";
}

event-IsComplete : (n : ℕ) → IsComplete (event n)
unfolding v2_fields payload members get
event-IsComplete n = record {
  version = refl;
  required = "schema_version" ∷ "event_id" ∷ "session_id" ∷ "seq" ∷ "event_type" ∷ "details" ∷ [];
  typed = refl;
  there = ((_, refl), ((_, refl), ((_, refl), ((_, refl), ((_, refl), ((_, refl), tt))))));
}

from_dict-payload_example : from_dict (λ o. "") (object (payload (event 1))) ≡ ok (event 1)
from_dict-payload_example = from_dict-payload (λ o. "") (event 1) (event-IsComplete 1)

abbrev values : List StoredEvent
values = event 0 ∷ event 0 ∷ []

append_each-IsKept_example : IsKept codec "test" none values
unfolding open_log read_events all_lines read_lines max_or_zero stamp append write_line stamped ◌+ℤ◌
    payload members get
append_each-IsKept_example =
    append_each-IsKept codec "test" none values tt (refl, (refl, tt))
      (event-IsComplete 1, (event-IsComplete 2, tt))

read_lines_corrupt_example :
    ((read_lines codec 1 ("1" ∷ "{" ∷ "2" ∷ [])).0
      ≡ (read_lines codec 1 ("1" ∷ [])).0 ++ (read_lines codec 1 ("2" ∷ [])).0)
    × ((read_lines codec 1 ("1" ∷ "{" ∷ "2" ∷ [])).1
        ≡ (read_lines codec 1 ("1" ∷ [])).1 ++ 2 ∷ (read_lines codec 3 ("2" ∷ [])).1)
unfolding read_line
read_lines_corrupt_example = read_lines_corrupt codec 1 "{" ("1" ∷ []) ("2" ∷ []) refl

abbrev file : File
file = record { lines = "1" ∷ []; unfinished = "{" }

open_log_fresh_example :
    All
      (λ e.
        is_of "test" e ≡ true
        → ltb_ℤ e.seq ((open_log codec "test" (some file)).seq +ℤ pos 1) ≡ true)
      (read_events codec (some file)).0
open_log_fresh_example = open_log_fresh codec "test" (some file)

abbrev log : FileLog
log = record { session_id = "test"; seq = pos 1; events = []; file = some file }

append_unfinished_example :
    ((read_events codec (append codec log (event 0)).file).0
      ≡ (read_events codec (some (record file { unfinished = "" }))).0)
    × ((append codec log (event 0)).events ≡ stamp codec log (event 0) ∷ [])
unfolding read_line stamp payload members get ◌+ℤ◌
append_unfinished_example = append_unfinished codec log file (event 0) refl refl
