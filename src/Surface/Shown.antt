-- ===== src/Surface/Shown.antt =====
-- When a cursor shows the row count of a result (CursorProxy.execute of proxy/connection.py and
-- ROWCOUNT_VISIBLE_FAULTS of core/faults.py in src/dogdb).
use mathlib.Core.Option.{some-injective}
use dogdb.Prelude.Int.{ℤ, negsuc}
use dogdb.Policy.{is_rowcount_visible, taxonomy}
use dogdb.Prelude.{
  ℕ, zero, suc, Option, none, ◌&&◌, not, if◌then◌else◌, sym, ◌≢◌, ◌⊎◌, inl, inr, Bool, some, any,
  get_elem?, Bool-cases, arith, ◌≡◌, refl, ap, ◌∙◌, true, false, String, List, [], ◌∷◌,
}
use dogdb.Models.{
  LogicalResult, Fault, false_empty, tail_chase, page_hole, echo, wrong_count, bark, guard_bowl,
  ignore, sloth, no_drop, stash_error, stash, shuffle, tangled_leash, chew, old_bone,
}
use dogdb.EventLog.{Event, EventType, fault_injected}
use dogdb.Surface.Cursor.{reported, changes_count, is_fault_injected, has_columns}

-- The faults after which a cursor shows the row count.
abbrev pub is_shown : Fault → Bool
is_shown false_empty = true
is_shown tail_chase = true
is_shown page_hole = true
is_shown echo = true
is_shown wrong_count = true
is_shown _ = false

-- One of the events reports that such a fault was injected.
abbrev pub Injects : List Event → Type 0
Injects l =
    (n : ℕ) × (e : Event) × (f : Fault) × (get_elem? l n ≡ some e)
    × (e.event_type ≡ fault_injected)
    × (e.fault ≡ some f)
    × (is_shown f ≡ true)

-- The row count of a result, by the events of its call: that of the result, after such a fault or
-- without columns, and if not, -1.
abbrev pub IsCount : List Event → LogicalResult → ℤ → Type 0
IsCount l r n =
    (n ≡ r.rowcount) × (Injects l ⊎ (r.columns ≡ []))
    ⊎ (n ≡ negsuc 0) × (¬ (Injects l)) × (r.columns ≢ [])

is_rowcount_visible-is_shown : (f : Fault) → is_rowcount_visible f ≡ is_shown f
unfolding is_rowcount_visible taxonomy
is_rowcount_visible-is_shown bark = refl
is_rowcount_visible-is_shown guard_bowl = refl
is_rowcount_visible-is_shown ignore = refl
is_rowcount_visible-is_shown sloth = refl
is_rowcount_visible-is_shown no_drop = refl
is_rowcount_visible-is_shown stash_error = refl
is_rowcount_visible-is_shown stash = refl
is_rowcount_visible-is_shown false_empty = refl
is_rowcount_visible-is_shown tail_chase = refl
is_rowcount_visible-is_shown page_hole = refl
is_rowcount_visible-is_shown echo = refl
is_rowcount_visible-is_shown shuffle = refl
is_rowcount_visible-is_shown tangled_leash = refl
is_rowcount_visible-is_shown chew = refl
is_rowcount_visible-is_shown wrong_count = refl
is_rowcount_visible-is_shown old_bone = refl

injection :
    (kind : EventType) (fault : Option Fault)
    → (is_fault_injected kind && (elim fault [ none ↦ false | some f ↦ is_rowcount_visible f ]))
      ≡ true
    → (f : Fault) × (kind ≡ fault_injected) × (fault ≡ some f) × (is_shown f ≡ true)
injection fault_injected (some f) h = (f, refl, refl, sym (is_rowcount_visible-is_shown f) ∙ h)
injection fault_injected none h = cc h
injection kind fault h = cc h

changes_count-true :
    (e : Event)
    → changes_count e ≡ true
    → (f : Fault) × (e.event_type ≡ fault_injected) × (e.fault ≡ some f) × (is_shown f ≡ true)
unfolding changes_count
changes_count-true e h = injection e.event_type e.fault h

changes_count-shown :
    (e : Event) (f : Fault)
    → e.event_type ≡ fault_injected
    → e.fault ≡ some f
    → is_shown f ≡ true
    → changes_count e ≡ true
unfolding changes_count
changes_count-shown e f kind fault shown = rw (kind, fault) (is_rowcount_visible-is_shown f ∙ shown)

any-Injects : (l : List Event) → any changes_count l ≡ true → Injects l
any-Injects [] h = cc h
any-Injects (e ∷ l) h = elim (Bool-cases (changes_count e)) [
  | inl yes_e ↦
      let (f, kind, fault, shown) = changes_count-true e yes_e in
      (0, e, f, refl, kind, fault, shown)
  | inr no_e ↦
      let (n, e', f, at, kind, fault, shown) = any-Injects l (ground (arith, h, no_e)) in
      (suc n, e', f, at, kind, fault, shown)
]

any-at :
    (l : List Event) (n : ℕ) (e : Event)
    → get_elem? l n ≡ some e
    → changes_count e ≡ true
    → any changes_count l ≡ true
any-at [] n e at h = cc at
any-at (x ∷ l) zero e at h = ground (arith, ap changes_count (some-injective x e at), h)
any-at (x ∷ l) (suc n) e at h = ground (arith, any-at l n e at h)

any-not_Injects : (l : List Event) → any changes_count l ≡ false → ¬ (Injects l)
any-not_Injects l h (n, e, f, at, kind, fault, shown) =
    cc (h, any-at l n e at (changes_count-shown e f kind fault shown))

IsCount-without :
    (l : List Event) (r : LogicalResult) (columns : List String)
    → r.columns ≡ columns
    → ¬ (Injects l)
    → IsCount l r (if not (has_columns r) then r.rowcount else negsuc 0)
IsCount-without l r [] e none_shown = rw e (inl (refl, inr refl))
IsCount-without l r (name ∷ names) e none_shown = rw e (inr (refl, none_shown, λ nil. cc nil))

pub reported-IsCount : (l : List Event) (r : LogicalResult) → IsCount l r (reported l r)
unfolding reported
reported-IsCount l r = elim (Bool-cases (any changes_count l)) [
  | inl shown ↦ rw shown (inl (refl, inl (any-Injects l shown)))
  | inr quiet ↦ rw quiet (IsCount-without l r r.columns refl (any-not_Injects l quiet))
]
