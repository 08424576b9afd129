-- ===== src/Engine/Reaches/Returns.antt =====
-- The returns of proxy/connection.py in src/dogdb, manual and automatic, are sequences of steps.
use dogdb.Prelude.{String, ◌≡◌, refl, Option, none, some, List, [], ◌∷◌, Option-cases, inl, inr}
use dogdb.Prelude.Dict.{lookup, values}
use dogdb.Models.{Phase, auto_return, manual_return}
use dogdb.Platform.{Platform}
use dogdb.EventLog.{Event, EventLog, append}
use mathlib.Core.Option
use dogdb.AutoReturn
use dogdb.AutoReturn.{AutoReturnScheduler}
use dogdb.House
use dogdb.House.{Treasure, HouseLedger}
use dogdb.Session.{Session}
use dogdb.Exec.{exec, ok}
use dogdb.Exec.Keeps.{Keeps-pure, Keeps-bind, keeps_rules}
use dogdb.Engine.{
  log_return, take_treasure, log_if_returned, cancel_return, return_treasure, log_all, empty_house,
  return_all, return_due, return_event, give_back,
}
use dogdb.Engine.Step.{
  Part, Reach, next, Step, ReportsReturn, ReportsAll, none_left, one_more, append_all,
}
use dogdb.Engine.Reaches.{Reaches}
use dogdb.Faults.Record.{log_event}

module _ (p : Platform) (phase : Phase) where
  log_return-state :
      (t : Treasure) (s : Session)
      → log_return p phase t s
        ≡ (ok tt, record s { events = append s.events (return_event p phase t s.events) })
  unfolding log_return log_event exec
  log_return-state t s = refl

  reports_return : (t : Treasure) (log : EventLog) → ReportsReturn (return_event p phase t log) t
  reports_return t log = record {
    whole = (tt, (tt, tt, tt, tt, tt, tt));
    event_type = refl;
    details = refl;
  }

take_absent :
    (id : String) (s : Session)
    → lookup id s.house.treasures ≡ none
    → House.return_treasure s.house id ≡ (s.house, none)
unfolding House.return_treasure
take_absent id s e = rw (e, House.return_treasure)

take_present :
    (id : String) (s : Session) (t : Treasure)
    → lookup id s.house.treasures ≡ some t
    → (House.return_treasure s.house id).1 ≡ some t
unfolding House.return_treasure
take_present id s t e = rw (e, House.return_treasure)

module _ (p : Platform) {part : Part} {o : Session} where
  -- A return is a step of the house and the log together, or nothing.
  Reaches-give_back : (phase : Phase) (id : String) → Reaches part o (give_back p phase id)
  unfolding give_back take_treasure log_if_returned exec
  Reaches-give_back phase id = record {
    at = λ s r. elim (Option-cases (lookup id s.house.treasures)) [
      | inl e ↦ rw (take_absent id s e) r
      | inr (t, e) ↦
          rw (take_present id s t e, log_return-state p phase t)
            (next r (
              Step.give_back id t (return_event p phase t s.events) e
                (reports_return p phase t s.events)))
    ];
  }

  Reaches-cancel_return : (id : String) → Reaches part o (cancel_return id)
  unfolding cancel_return
  Reaches-cancel_return id = record { at = λ s r. next r (Step.cancel id) }

  -- DollyNamespace.return_treasure
  pub Reaches-return_treasure : (id : String) → Reaches part o (return_treasure p id)
  unfolding return_treasure
  Reaches-return_treasure id = search (keeps_rules, Reaches-cancel_return, Reaches-give_back)

  pub Reaches-return_due : (l : List String) → Reaches part o (return_due p l)
  unfolding return_due
  Reaches-return_due [] = Keeps-pure tt
  Reaches-return_due (id ∷ l) =
      Keeps-bind _ _ (Reaches-give_back auto_return id) (λ _. Reaches-return_due l)

-- What the loop of `return_all` does to the schedule.
cancel_all : List Treasure → Option AutoReturnScheduler → Option AutoReturnScheduler
cancel_all [] a = a
cancel_all (t ∷ l) a = cancel_all l (Option.map (λ x. AutoReturn.cancel x t.treasure_id) a)

module _ (p : Platform) where
  -- The events of the loop of `return_all`.
  return_events : List Treasure → EventLog → List Event
  return_events [] log = []
  return_events (t ∷ l) log =
      let e = return_event p manual_return t log in e ∷ return_events l (append log e)

  reports_all : (l : List Treasure) (log : EventLog) → ReportsAll (return_events l log) l
  unfolding return_events
  reports_all [] log = none_left
  reports_all (t ∷ l) log = one_more (reports_return p manual_return t log) (reports_all l _)

  log_all-state :
      (l : List Treasure) (s : Session)
      → log_all p l s ≡ (
        ok tt,
        record s {
          auto_return = cancel_all l s.auto_return;
          events = append_all s.events (return_events l s.events);
        },
      )
  unfolding log_all cancel_return exec cancel_all return_events
  log_all-state [] s = refl
  log_all-state (t ∷ l) s = rw (log_return-state) (
      log_all-state l (record s {
        auto_return = Option.map (λ x. AutoReturn.cancel x t.treasure_id) s.auto_return;
        events = append s.events (return_event p manual_return t s.events);
      }))

  Reach-cancel_all :
      {part : Part} {o : Session} (l : List Treasure) (s : Session)
      → Reach part o s
      → Reach part o (record s { auto_return = cancel_all l s.auto_return })
  unfolding cancel_all
  Reach-cancel_all [] s r = r
  Reach-cancel_all (t ∷ l) s r = Reach-cancel_all l _ (next r (Step.cancel t.treasure_id))

  -- DollyNamespace.return_all
  pub Reaches-return_all : {part : Part} {o : Session} → Reaches part o (return_all p)
  unfolding return_all empty_house House.return_all exec
  Reaches-return_all = record {
    at = λ s r.
        let l = values s.house.treasures in
        rw log_all-state (
          next (Reach-cancel_all l s r)
            (Step.give_all_back (return_events l s.events) (reports_all l s.events)));
  }
