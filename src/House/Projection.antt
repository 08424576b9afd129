-- ===== src/House/Projection.antt =====
-- The projection of core/house.py in src/dogdb (`rebuild_house`) and the ledger: what one event does
-- to the projected treasures.
use dogdb.Prelude.{
  String, ◌≡◌, ◌≢◌, refl, ap, ◌∙◌, true, false, Option, none, some, List, [], ◌∷◌, ◌++◌, str_eq,
  eq_iff, arith, Bool-cases, inl, inr,
}
use dogdb.Prelude.Dict.{Dict, insert, erase, values}
use dogdb.Models.{stash, Fault}
use dogdb.EventLog.{
  Event, EventLog, EventType, fault_injected, treasure_returned, mood_changed, limit_exceeded,
  decision_evaluated, append, stamp,
}
use dogdb.EventLog.Whole.{Requires-stamp}
use dogdb.House.{is_stash, Treasure, ProjectedTreasure, contains, project_event, project}
use dogdb.House.Valid.{IsKeyed}
use dogdb.Engine.Step.{Reports, ReportsReturn, ReportsAll, none_left, one_more, IsPlain, append_all}

-- What the projection keeps of a treasure.
abbrev pub summary : Treasure → ProjectedTreasure
summary t = record {
  treasure_id = t.treasure_id;
  template_fingerprint = some t.template_fingerprint;
  row_index = t.row_index;
  event_id = t.event_id;
}

abbrev pub summaries : Dict Treasure → Dict ProjectedTreasure
summaries [] = []
summaries ((j, t) ∷ m) = (j, summary t) ∷ summaries m

pub summaries-insert :
    (k : String) (t : Treasure) (m : Dict Treasure)
    → summaries (insert k t m) ≡ insert k (summary t) (summaries m)
unfolding insert
summaries-insert k t [] = refl
summaries-insert k t ((j, u) ∷ m) = ground (arith, summaries-insert k t m)

pub summaries-erase :
    (k : String) (m : Dict Treasure) → summaries (erase k m) ≡ erase k (summaries m)
unfolding erase
summaries-erase k [] = refl
summaries-erase k ((j, u) ∷ m) = ground (arith, summaries-erase k m)

pub project-append :
    (a : Dict ProjectedTreasure) (l : List Event) (e : Event)
    → project a (l ++ e ∷ []) ≡ project_event (project a l) e
unfolding project
project-append a [] e = refl
project-append a (x ∷ l) e = project-append (project_event a x) l e

pub project-hide :
    (a : Dict ProjectedTreasure) (e : Event) (t : Treasure)
    → Reports e t
    → project_event a e ≡ insert t.treasure_id (summary t) a
unfolding project_event
project-hide a e t r =
    rw (r.event_type, r.fault, r.details, project_event) (rw (r.named, r.template, r.event_id))

is_stash_other : (f : Option Fault) → f ≢ some stash → is_stash f ≡ false
is_stash_other none h = refl
is_stash_other (some stash) h = absurd (h refl)
is_stash_other (some f) h = refl

project-plain_of :
    (k : EventType) (a : Dict ProjectedTreasure) (e : Event)
    → e.event_type ≡ k
    → IsPlain e
    → project_event a e ≡ a
unfolding project_event
project-plain_of fault_injected a e h plain =
    rw (h, is_stash_other e.fault (plain.not_stash h), project_event)
project-plain_of treasure_returned a e h plain = absurd (plain.not_return h)
project-plain_of mood_changed a e h plain = rw (h, project_event)
project-plain_of limit_exceeded a e h plain = rw (h, project_event)
project-plain_of decision_evaluated a e h plain = rw (h, project_event)

pub project-plain : (a : Dict ProjectedTreasure) (e : Event) → IsPlain e → project_event a e ≡ a
project-plain a e = project-plain_of e.event_type a e refl

pub project-return :
    (a : Dict ProjectedTreasure) (e : Event) (t : Treasure)
    → ReportsReturn e t
    → project_event a e ≡ erase t.treasure_id a
unfolding project_event
project-return a e t r = rw (r.event_type, r.details, project_event)

-- The ids of the keys that a dictionary can still have.
abbrev pub Covered {ℓ} : {V : Type ℓ} → List String → Dict V → Type 0
Covered ids [] = Unit
Covered ids ((j, v) ∷ m) = (contains j ids ≡ true) × Covered ids m

pub erase_each {ℓ} : {V : Type ℓ} → List String → Dict V → Dict V
erase_each [] m = m
erase_each (i ∷ ids) m = erase_each ids (erase i m)

Covered-erase {ℓ} :
    {V : Type ℓ} (i : String) (ids : List String) (m : Dict V)
    → Covered (i ∷ ids) m
    → Covered ids (erase i m)
unfolding erase
Covered-erase i ids [] h = tt
Covered-erase i ids ((j, v) ∷ m) h = elim (Bool-cases (str_eq j i)) [
  | inl same ↦ rw same (Covered-erase i ids m h.1)
  | inr ne ↦ rw ne (ground (arith, h.0, ne, eq_iff i j, eq_iff j i), Covered-erase i ids m h.1)
]

-- Erasing every key leaves nothing.
pub erase_each-nil {ℓ} :
    {V : Type ℓ} (ids : List String) (m : Dict V) → Covered ids m → erase_each ids m ≡ []
unfolding erase_each
erase_each-nil [] [] h = refl
erase_each-nil [] ((j, v) ∷ m) h = cc (h.0)
erase_each-nil (i ∷ ids) m h = erase_each-nil ids (erase i m) (Covered-erase i ids m h)

pub ids_of : List Treasure → List String
ids_of [] = []
ids_of (t ∷ l) = t.treasure_id ∷ ids_of l

Covered-more {ℓ} :
    {V : Type ℓ} (i : String) (ids : List String) (m : Dict V) → Covered ids m → Covered (i ∷ ids) m
Covered-more i ids [] h = tt
Covered-more i ids ((j, v) ∷ m) h = (ground (arith, h.0), Covered-more i ids m h.1)

pub Covered-summaries : (m : Dict Treasure) → IsKeyed m → Covered (ids_of (values m)) (summaries m)
unfolding ids_of
Covered-summaries [] k = tt
Covered-summaries ((j, t) ∷ m) k = (
  ground (arith, k.0, eq_iff t.treasure_id j),
  Covered-more t.treasure_id (ids_of (values m)) (summaries m) (Covered-summaries m k.1),
)

-- The log keeps its stamp apart from what the projection reads.
pub project-append_all :
    (a : Dict ProjectedTreasure) (log : EventLog) {es : List Event} {ts : List Treasure}
    → ReportsAll es ts
    → project a (append_all log es).events ≡ erase_each (ids_of ts) (project a log.events)
unfolding append stamp erase_each ids_of
project-append_all a log none_left = refl
project-append_all a log (one_more {e = e} {t = t} {ts = ts} r rs) =
    project-append_all a (append log e) rs
    ∙ ap (erase_each (ids_of ts)) (
        project-append a log.events (stamp log e)
        ∙ project-return _ (stamp log e) t (record {
          whole = Requires-stamp e.event_type log e r.whole;
          event_type = r.event_type;
          details = r.details;
        }))
