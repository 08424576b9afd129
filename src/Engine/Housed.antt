-- ===== src/Engine/Housed.antt =====
-- The house and the event log of a session (core/house.py, core/event_log.py and
-- proxy/connection.py of src/dogdb), over the steps of a session.
use dogdb.Prelude.{String, ◌≡◌, refl, sym, ap, false, some, [], ◌∷◌, map}
use dogdb.Prelude.Dict.{Dict, lookup, values}
use dogdb.EventLog.{EventLog, Event, append, stamp}
use dogdb.House
use dogdb.House.{
  HouseLedger, Treasure, ProjectedTreasure, project, project_event, rebuild_house, refuses,
}
use dogdb.House.Valid.{
  IsValid, add-IsValid, return_treasure-IsValid, return_all-IsValid, consume_release-IsValid,
  keyed-lookup, treasures-consume_release,
}
use dogdb.House.Projection.{
  summary, summaries, summaries-insert, summaries-erase, project-append, project-hide,
  project-plain, project-return, project-append_all, erase_each-nil, Covered-summaries,
}
use dogdb.Session.{Session}
use dogdb.Engine.Step.{
  Part, Step, Reports, ReportsReturn, log, hide, give_back, give_all_back, release,
}

-- The house is valid, and the log's projection is what the house holds.
pub record IsHoused (s : Session) : Type 0 where
  pub valid : IsValid s.house
  pub rebuilt : project [] s.events.events ≡ summaries s.house.treasures

project-stamp :
    (a : Dict ProjectedTreasure) (l : EventLog) (e : Event)
    → project a (append l e).events ≡ project_event (project a l.events) e
unfolding append stamp project_event
project-stamp a l e = project-append a l.events (stamp l e)

rebuilt-hide :
    (s : Session) (t : Treasure) (e : Event)
    → refuses s.house t ≡ false
    → Reports e t
    → project [] s.events.events ≡ summaries s.house.treasures
    → project [] (append s.events e).events ≡ summaries (House.add s.house t).0.treasures
unfolding House.add
rebuilt-hide s t e fresh r h =
    rw (fresh, project-stamp, h, project-hide _ e t r) (sym (summaries-insert t.treasure_id t _))

rebuilt-give_back :
    (s : Session) (id : String) (t : Treasure) (e : Event)
    → lookup id s.house.treasures ≡ some t
    → ReportsReturn e t
    → IsHoused s
    → project [] (append s.events e).events
      ≡ summaries (House.return_treasure s.house id).0.treasures
unfolding House.return_treasure
rebuilt-give_back s id t e here r h =
    rw
      (
        here,
        House.return_treasure,
        project-stamp,
        h.rebuilt,
        project-return _ e t r,
        keyed-lookup s.house.treasures id t h.valid.keyed here,
      )
      (sym (summaries-erase id _))

pub IsHoused-step : {part : Part} (s t : Session) → Step part s t → IsHoused s → IsHoused t
unfolding House.return_all
IsHoused-step s _ (log e plain) h = record {
  valid = h.valid;
  rebuilt = rw (project-stamp, h.rebuilt) (project-plain _ e plain);
}
IsHoused-step s _ (hide t e fresh r) h = record {
  valid = add-IsValid s.house t h.valid;
  rebuilt = rebuilt-hide s t e fresh r h.rebuilt;
}
IsHoused-step s _ (give_back id t e here r) h = record {
  valid = return_treasure-IsValid s.house id h.valid;
  rebuilt = rebuilt-give_back s id t e here r h;
}
IsHoused-step s _ (give_all_back es r) h = record {
  valid = return_all-IsValid s.house;
  rebuilt =
      rw (project-append_all [] s.events r, h.rebuilt)
        (erase_each-nil _ _ (Covered-summaries s.house.treasures h.valid.keyed));
}
IsHoused-step s _ (release template) h = record {
  valid = consume_release-IsValid s.house template h.valid;
  rebuilt = rw (treasures-consume_release) h.rebuilt;
}
IsHoused-step s _ _ h = record { valid = h.valid; rebuilt = h.rebuilt }

values-summaries : (m : Dict Treasure) → values (summaries m) ≡ map summary (values m)
values-summaries [] = refl
values-summaries ((j, t) ∷ m) = ap (◌∷◌ (summary t)) (values-summaries m)

-- What `rebuild_house(dolly.log())` gives is what `dolly.house()` shows.
pub rebuild-IsHoused :
    {s : Session}
    → IsHoused s
    → rebuild_house s.events.events ≡ map summary (values s.house.treasures)
unfolding rebuild_house
rebuild-IsHoused {s} h = rw h.rebuilt (values-summaries s.house.treasures)
