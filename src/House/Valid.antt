-- ===== src/House/Valid.antt =====
-- The invariant of the ledger of core/house.py in src/dogdb, and that its operations keep it.
use dogdb.Prelude.{
  ◌≤◌, String, ◌≡◌, ◌↔◌, refl, sym, true, false, none, some, [], ◌∷◌, ==_iff, leb, str_eq, eq_iff,
  if◌then◌else◌, length, All, arith, Bool-cases, Option-cases, inl, inr,
}
use dogdb.Prelude.Dict.{
  Dict, lookup, insert, erase, lookup-insert, lookup-erase, length-insert, length-erase,
}
use dogdb.House.{
  contains, HouseLedger, Treasure, Location, Locations, location, location_eq, find_location,
  erase_location, refuses, add, return_treasure, return_all, consume_release,
}

location_eq_iff : (a b : Location) → (location_eq a b ≡ true) ↔ (a ≡ b)
location_eq_iff a b = ground (arith, eq_iff a.template b.template, ==_iff a.row_index b.row_index)

pub find_location-erase :
    (a b : Location) (l : Locations)
    → find_location b (erase_location a l) ≡ (if location_eq a b then none else find_location b l)
unfolding erase_location
find_location-erase a b [] = ground arith
find_location-erase a b ((x, id) ∷ l) = ground (
  arith,
  location_eq_iff a b,
  location_eq_iff x a,
  location_eq_iff x b,
  find_location-erase a b l,
)

-- A treasure stands under its own id.
abbrev pub IsKeyed : Dict Treasure → Type 0
IsKeyed = All (λ e. e.1.treasure_id ≡ e.0)

pub record IsValid (h : HouseLedger) : Type 0 where
  pub keyed : IsKeyed h.treasures
  -- Each treasure is found at its location, so no two share one.
  pub located :
      (id : String) (t : Treasure)
      → lookup id h.treasures ≡ some t
      → find_location (location t) h.by_location ≡ some id
  pub bounded : length h.treasures ≤ h.capacity

pub keyed-lookup :
    (m : Dict Treasure) (id : String) (t : Treasure)
    → IsKeyed m
    → lookup id m ≡ some t
    → t.treasure_id ≡ id
keyed-lookup [] id t k h = cc
keyed-lookup ((j, u) ∷ m) id t k h = ground (arith, eq_iff j id, keyed-lookup m id t k.1)

IsKeyed-insert : (m : Dict Treasure) (t : Treasure) → IsKeyed m → IsKeyed (insert t.treasure_id t m)
unfolding insert
IsKeyed-insert [] t k = (refl, tt)
IsKeyed-insert ((j, u) ∷ m) t k = elim (Bool-cases (str_eq j t.treasure_id)) [
  | inl same ↦ rw same (sym ((eq_iff _ _).0 same), k.1)
  | inr ne ↦ rw ne (k.0, IsKeyed-insert m t k.1)
]

IsKeyed-erase : (m : Dict Treasure) (id : String) → IsKeyed m → IsKeyed (erase id m)
unfolding erase
IsKeyed-erase [] id k = tt
IsKeyed-erase ((j, u) ∷ m) id k = elim (Bool-cases (str_eq j id)) [
  | inl same ↦ rw same (IsKeyed-erase m id k.1)
  | inr ne ↦ rw ne (k.0, IsKeyed-erase m id k.1)
]

-- A refused treasure leaves the ledger as it is; an accepted one keeps it valid.
module _ (h : HouseLedger) (t : Treasure) where
  accepted_parts :
      refuses h t ≡ false
      → (lookup t.treasure_id h.treasures ≡ none)
        × (find_location (location t) h.by_location ≡ none)
        × (leb h.capacity (length h.treasures) ≡ false)
  unfolding refuses
  accepted_parts e = ground arith

  located-add :
      IsValid h
      → refuses h t ≡ false
      → (id : String) (u : Treasure) → lookup id (insert t.treasure_id t h.treasures) ≡ some u
      → find_location (location u) ((location t, t.treasure_id) ∷ h.by_location) ≡ some id
  located-add v fresh id u e =
      let (_, unplaced, _) = accepted_parts fresh in
      let found = rw lookup-insert at e in
      ground (
        arith,
        found,
        unplaced,
        eq_iff t.treasure_id id,
        location_eq_iff (location t) (location u),
        v.located id u,
      )

  pub add-IsValid : IsValid h → IsValid (add h t).0
  unfolding add
  add-IsValid v = elim (Bool-cases (refuses h t)) [
    | inl full ↦ rw full v
    | inr fresh ↦ rw fresh (record {
      keyed = IsKeyed-insert h.treasures t v.keyed;
      located = located-add v fresh;
      bounded = ground (arith, accepted_parts fresh, length-insert t.treasure_id t h.treasures);
    })
  ]

module _ (h : HouseLedger) (id : String) where
  located-erase :
      (t : Treasure)
      → IsValid h
      → lookup id h.treasures ≡ some t
      → (j : String) (u : Treasure) → lookup j (erase id h.treasures) ≡ some u
      → find_location (location u) (erase_location (location t) h.by_location) ≡ some j
  located-erase t v here j u e =
      let found = rw lookup-erase at e in
      rw find_location-erase (
        ground (
          arith,
          found,
          eq_iff id j,
          location_eq_iff (location t) (location u),
          v.located id t,
          v.located j u,
        ))

  pub return_treasure-IsValid : IsValid h → IsValid (return_treasure h id).0
  unfolding return_treasure
  return_treasure-IsValid v = elim (Option-cases (lookup id h.treasures)) [
    | inl e ↦ rw (e, return_treasure) v
    | inr (t, e) ↦
        rw (e, return_treasure)
          (record {
            keyed = IsKeyed-erase h.treasures id v.keyed;
            located = located-erase t v e;
            bounded = omega (arith, v.bounded, length-erase id h.treasures);
          })
  ]

pub return_all-IsValid : (h : HouseLedger) → IsValid (return_all h).0
unfolding return_all
return_all-IsValid h = record { keyed = tt; located = λ id t e. cc; bounded = omega arith }

pub consume_release-IsValid :
    (h : HouseLedger) (template : String) → IsValid h → IsValid (consume_release h template).0
unfolding consume_release
consume_release-IsValid h template v = elim (Bool-cases (contains template h.released_templates)) [
  | inl e ↦ rw e (record { keyed = v.keyed; located = v.located; bounded = v.bounded })
  | inr e ↦ rw e v
]

pub treasures-consume_release :
    (h : HouseLedger) (template : String) → (consume_release h template).0.treasures ≡ h.treasures
unfolding consume_release
treasures-consume_release h template = ground arith
