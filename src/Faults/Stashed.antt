-- ===== src/Faults/Stashed.antt =====
-- STASH (core/faults.py of src/dogdb): the row that it hides.
use dogdb.Prelude.{
  ℕ, ◌≤◌, ◌+◌, ◌<◌, String, ◌≡◌, refl, true, false, ◌++◌, ◌⊎◌, length, take, drop, get_elem?, some,
}
use dogdb.Prelude.Int.{pos}
use dogdb.Prelude.Dict.{Dict, insert, has_key}
use dogdb.Models.{LogicalResult, Decision, Row, stash, fault_name}
use dogdb.Platform.{Platform}
use dogdb.EventLog.{Event, Detail, append, stamp, fault_injected}
use dogdb.House.{HouseLedger, Treasure, add, refuses, has_location, location}
use dogdb.Policy.{FaultPolicy, FaultTaxonomy, Mode, quiet, error, taxonomy, taxonomy_of}
use dogdb.Session.{Config, Session}
use dogdb.Stats.{record_intervention}
use dogdb.Exec.{Result, exec, ok}
use dogdb.Faults.Record.{about, event, log_event, event_id_at}
use dogdb.Faults.Inject.{treasure_of, treasure_id_at}

taxonomy-stash : (m : Mode) → (t : FaultTaxonomy) × (taxonomy stash (some m) ≡ some t)
unfolding taxonomy
taxonomy-stash quiet = (_, refl)
taxonomy-stash error = (_, refl)

pub taxonomy_of-stash :
    (policy : FaultPolicy) → (t : FaultTaxonomy) × (taxonomy_of policy stash ≡ some t)
unfolding taxonomy_of
taxonomy_of-stash policy = taxonomy-stash policy.stash_mode

-- The event that `_stash` records.
abbrev pub stash_event :
    Platform → Decision → String → Dict Detail → FaultTaxonomy → Session → Event
stash_event p d outcome m t s =
    about fault_injected d (event_id_at p s.events d.decision_key "STASH") (some stash) outcome m
      (some t)

module _ (p : Platform) (c : Config) (d : Decision) where
  pub event-stash :
      (outcome : String) (m : Dict Detail) (t : FaultTaxonomy) (s : Session)
      → taxonomy_of c.policy stash ≡ some t
      → event p c d stash outcome m s ≡ (
        ok (stamp s.events (stash_event p d outcome m t s)),
        record s {
          events = append s.events (stash_event p d outcome m t s);
          stats = record_intervention s.stats d.template_fingerprint;
        },
      )
  unfolding event log_event exec fault_name
  event-stash outcome m t s h = rw (h, event)

  abbrev pub treasure : ℕ → Row → Session → Treasure
  treasure i row s =
      treasure_of d i row (event_id_at p s.events d.decision_key "STASH") (treasure_id_at p d i)

pub add-accepts : (h : HouseLedger) (t : Treasure) → refuses h t ≡ false → (add h t).1 ≡ true
unfolding add
add-accepts h t fresh = rw fresh

pub add-declines : (h : HouseLedger) (t : Treasure) → refuses h t ≡ true → add h t ≡ (h, false)
unfolding add
add-declines h t full = rw full

-- The house has the treasure's id or its row already, or is full.
abbrev pub IsRefused : HouseLedger → Treasure → Type 0
IsRefused h t =
    (has_key t.treasure_id h.treasures ≡ true)
    ⊎ (has_location (location t) h.by_location ≡ true)
    ⊎ (h.capacity ≤ length h.treasures)

abbrev pub IsAccepted : HouseLedger → Treasure → Type 0
IsAccepted h t =
    (has_key t.treasure_id h.treasures ≡ false)
    × (has_location (location t) h.by_location ≡ false)
    × (length h.treasures < h.capacity)

-- What `_stash` does with a row and the treasure that it makes of it. If the house refuses the
-- treasure, the result and the session stay as they are. If not, the result lacks that row, with the
-- number of the others, and the house has the treasure.
abbrev pub IsStashed :
    LogicalResult → Session → ℕ → Treasure → Result LogicalResult × Session → Type 0
IsStashed result s i t r =
    IsRefused s.house t × (r ≡ (ok result, s))
    ⊎ IsAccepted s.house t
      × (r.0
          ≡ ok (record result {
            rows = take i result.rows ++ drop (i + 1) result.rows;
            rowcount = pos (length (take i result.rows ++ drop (i + 1) result.rows));
          }))
      × (r.1.house.treasures ≡ insert t.treasure_id t s.house.treasures)

module _ (p : Platform) (c : Config) (d : Decision) (result : LogicalResult) (s : Session) where
  -- A row of the result, with the treasure that is made of it.
  abbrev pub StashesOne : Result LogicalResult × Session → Type 0
  StashesOne r =
      (i : ℕ) × (row : Row) × (t : Treasure) × (get_elem? result.rows i ≡ some row)
      × (t.row_index ≡ i)
      × (t.row ≡ row)
      × (t.template_fingerprint ≡ d.template_fingerprint)
      × IsStashed result s i t r
