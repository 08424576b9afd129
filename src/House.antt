-- ===== src/House.antt =====
-- core/house.py of src/dogdb: the ledger of hidden rows, and its projection from the event log.
pub mod Valid
pub mod Projection
use dogdb.Prelude.{
  ℕ, String, Bool, true, false, ◌&&◌, ◌||◌, not, Option, none, some, List, [], ◌∷◌, ◌==◌, leb,
  str_eq, if◌then◌else◌, length, select,
}
use dogdb.Prelude.Dict.{Dict, lookup, has_key, insert, erase, values}
use dogdb.Models.{Row, stash, fault_eq, Fault}
use dogdb.EventLog.{Event, fault_injected, treasure_returned, Detail, str, nums}

pub record Treasure : Type 0 where
  pub treasure_id : String
  pub template_fingerprint : String
  pub row_index : ℕ
  pub row : Row
  pub event_id : String
  pub parameter_fingerprint : String
  pub occurrence : ℕ
  pub decision_key : String

-- The key of `_by_location`, and the dictionary itself.
pub record Location : Type 0 where
  pub template : String
  pub row_index : ℕ

abbrev pub location_eq : Location → Location → Bool
location_eq a b = str_eq a.template b.template && a.row_index == b.row_index

abbrev pub location : Treasure → Location
location t = record { template = t.template_fingerprint; row_index = t.row_index }

abbrev pub Locations : Type 0
Locations = List (Location × String)

abbrev pub find_location : Location → Locations → Option String
find_location a [] = none
find_location a ((b, id) ∷ l) = if location_eq b a then some id else find_location a l

abbrev pub has_location : Location → Locations → Bool
has_location a l = elim (find_location a l) [ none ↦ false | some id ↦ true ]

unfoldable pub erase_location : Location → Locations → Locations
erase_location a [] = []
erase_location a ((b, id) ∷ l) =
    if location_eq b a then erase_location a l else (b, id) ∷ erase_location a l

-- `_released_templates`, a set.
abbrev pub contains : String → List String → Bool
contains s [] = false
contains s (t ∷ l) = str_eq t s || contains s l

unfoldable pub set_add : String → List String → List String
set_add s l = if contains s l then l else s ∷ l

unfoldable pub set_remove : String → List String → List String
set_remove s l = select (λ t. not (str_eq t s)) l

pub record HouseLedger : Type 0 where
  pub capacity : ℕ
  pub treasures : Dict Treasure
  pub by_location : Locations
  pub released_templates : List String

abbrev pub new : ℕ → HouseLedger
new capacity = record {
  capacity = capacity;
  treasures = [];
  by_location = [];
  released_templates = [];
}

-- The guard of HouseLedger.add.
unfoldable pub refuses : HouseLedger → Treasure → Bool
refuses h t =
    has_key t.treasure_id h.treasures
    || has_location (location t) h.by_location
    || leb h.capacity (length h.treasures)

unfoldable pub add : HouseLedger → Treasure → HouseLedger × Bool
unfolding refuses
add h t = if refuses h t then (h, false) else (
  record h {
    treasures = insert t.treasure_id t h.treasures;
    by_location = (location t, t.treasure_id) ∷ h.by_location;
  },
  true,
)

-- The insertion of `sorted(…, key=row_index)`, stable.
unfoldable pub insert_sorted : Treasure → List Treasure → List Treasure
insert_sorted t [] = t ∷ []
insert_sorted t (u ∷ l) = if leb t.row_index u.row_index then t ∷ u ∷ l else u ∷ insert_sorted t l

unfoldable pub sort_by_row : List Treasure → List Treasure
unfolding insert_sorted
sort_by_row [] = []
sort_by_row (t ∷ l) = insert_sorted t (sort_by_row l)

unfoldable pub active_for : HouseLedger → String → List Treasure
unfolding sort_by_row
active_for h template =
    sort_by_row (select (λ t. str_eq t.template_fingerprint template) (values h.treasures))

unfoldable pub return_treasure : HouseLedger → String → HouseLedger × Option Treasure
unfolding set_add erase_location
return_treasure h treasure_id = elim (lookup treasure_id h.treasures) [
  | none ↦ (h, none)
  | some t ↦ (
    record h {
      treasures = erase treasure_id h.treasures;
      by_location = erase_location (location t) h.by_location;
      released_templates = set_add t.template_fingerprint h.released_templates;
    },
    some t,
  )
]

unfoldable pub add_released : List Treasure → List String → List String
unfolding set_add
add_released [] released = released
add_released (t ∷ l) released = add_released l (set_add t.template_fingerprint released)

unfoldable pub return_all : HouseLedger → HouseLedger × List Treasure
unfolding add_released
return_all h =
    let returned = values h.treasures in
    (
      record h {
        treasures = [];
        by_location = [];
        released_templates = add_released returned h.released_templates;
      },
      returned,
    )

unfoldable pub consume_release : HouseLedger → String → HouseLedger × Bool
unfolding set_remove
consume_release h template =
    if contains template h.released_templates
    then (record h { released_templates = set_remove template h.released_templates }, true)
    else (h, false)

pub record ProjectedTreasure : Type 0 where
  pub treasure_id : String
  pub template_fingerprint : Option String
  pub row_index : ℕ
  pub event_id : String

abbrev pub is_stash : Option Fault → Bool
is_stash none = false
is_stash (some f) = fault_eq f stash

-- The body of the loop of rebuild_house, on the details that it reads. A detail of another type
-- than the library writes is read as an absent one.
project_stash :
    Event → Option Detail → Option Detail → Dict ProjectedTreasure → Dict ProjectedTreasure
project_stash e (some (str treasure_id)) (some (nums (i ∷ l))) active =
    if str_eq treasure_id ""
    then active
    else insert treasure_id
        (record {
          treasure_id = treasure_id;
          template_fingerprint = e.template_fingerprint;
          row_index = i;
          event_id = e.event_id;
        })
        active
project_stash e _ _ active = active

project_return : Option Detail → Dict ProjectedTreasure → Dict ProjectedTreasure
project_return (some (str treasure_id)) active = erase treasure_id active
project_return _ active = active

unfoldable pub project_event : Dict ProjectedTreasure → Event → Dict ProjectedTreasure
unfolding project_stash project_return
project_event active e = elim e.event_type [
  | fault_injected ↦
      if is_stash e.fault
      then project_stash e (lookup "treasure_id" e.details) (lookup "row_indices" e.details) active
      else active
  | treasure_returned ↦ project_return (lookup "treasure_id" e.details) active
  | _ ↦ active
]

unfoldable pub project : Dict ProjectedTreasure → List Event → Dict ProjectedTreasure
unfolding project_event
project active [] = active
project active (e ∷ l) = project (project_event active e) l

unfoldable pub rebuild_house : List Event → List ProjectedTreasure
unfolding project
rebuild_house events = values (project [] events)
