-- ===== src/Tests/Hidden.antt =====
-- STASH at two queries of one template.
use dogdb.Prelude.{◌≡◌, ◌≢◌, refl, List, [], ◌∷◌, none, length, ap, arith}
use dogdb.Models.{Decision, stash, no_drop, on_result}
use dogdb.House.{Treasure, active_for, add}
use dogdb.Session.{Session}
use dogdb.Exec.{exec}
use dogdb.Prelude.Dict.{insert}
use dogdb.Platform.{derived_index, derived_number}
use dogdb.Policy.{taxonomy_of}
use dogdb.Faults.Record.{event, log_event}
use dogdb.Faults.{select_candidate}
use dogdb.Faults.Inject.{inject_stash, offer, add_treasure, stashed, schedule_return, finish_stash}
use dogdb.Faults.OnResult.{run_on_result}
use dogdb.Engine.Sticky.{stash_sticks}
use dogdb.Tests.{platform, config_of, query, session, decision, result}

abbrev later : Decision
later = record decision { occurrence = 2; decision_key = "sha256:3" }

-- The session after STASH has taken a row, as a second query finds it.
abbrev after : Session
after = record session {
  house = (inject_stash platform (config_of stash) decision result session).1.house;
}

abbrev hidden : List Treasure
hidden =
    active_for (inject_stash platform (config_of stash) decision result session).1.house
      decision.template_fingerprint

length-hidden : length hidden ≡ 1
unfolding inject_stash exec active_for derived_index derived_number offer add_treasure add stashed
    schedule_return event taxonomy_of log_event finish_stash insert
length-hidden = refl

one_hidden : hidden ≢ []
one_hidden e = omega (arith, length-hidden, ap length e)

kept :
    select_candidate platform (config_of stash).policy after.mood later (no_drop ∷ []) on_result
    ≡ none
unfolding select_candidate
kept = refl

stash_sticks_example :
    ((run_on_result platform (config_of stash) query later result after).0
      ≡ (inject_stash platform (config_of stash) decision result session).0)
    × ((run_on_result platform (config_of stash) query later result after).1.house ≡ after.house)
unfolding active_for
stash_sticks_example =
    stash_sticks platform (config_of stash) query result decision later session after refl refl
      one_hidden refl refl refl refl kept
