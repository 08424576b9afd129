-- ===== src/AutoReturn/Live.antt =====
-- The ticks that follow the scheduling of a treasure (core/auto_return.py of src/dogdb).
use dogdb.Prelude.{
  ℕ, zero, suc, ◌+◌, ◌<◌, String, ◌≡◌, refl, sym, ap, ◌∙◌, true, false, ◌||◌, List, [], ◌∷◌, ◌++◌,
  none, arith, Bool-cases, inl, inr, str_eq, eq_iff, leb,
}
use dogdb.Prelude.Dict.{Dict, lookup, insert, erase}
use dogdb.Platform.{Platform}
use dogdb.House.{contains}
use dogdb.AutoReturn.{AutoReturnScheduler, Slot, advance, schedule, hold, erase_all, is_due}
use dogdb.AutoReturn.Due.{is_due_at, advance-due}
use dogdb.AutoReturn.Hold.{hold-bounds}
use dogdb.Settings.Returns.{IsRange}

-- The next n ticks after tick t, and what they return.
unfoldable pub run_ticks : ℕ → ℕ → AutoReturnScheduler → AutoReturnScheduler × List String
unfolding advance
run_ticks zero t a = (a, [])
run_ticks (suc n) t a =
    let (b, returned) = advance a (suc t) in
    let (c, rest) = run_ticks n (suc t) b in (c, returned ++ rest)

contains-append :
    (k : String) (l m : List String) → contains k (l ++ m) ≡ contains k l || contains k m
contains-append k [] m = refl
contains-append k (i ∷ l) m = ground (arith, contains-append k l m)

is_due_at-absent :
    (t : ℕ) (k : String) (m : Dict Slot) → lookup k m ≡ none → is_due_at t k m ≡ false
is_due_at-absent t k [] h = refl
is_due_at-absent t k ((j, s) ∷ m) h = elim (Bool-cases (str_eq j k)) [
  | inl e ↦ absurd (ground (arith, h, e))
  | inr e ↦ rw e (is_due_at-absent t k m (ground (arith, h, e)))
]

is_due_at-insert :
    (t : ℕ) (k : String) (s : Slot) (m : Dict Slot)
    → lookup k m ≡ none
    → is_due_at t k (insert k s m) ≡ is_due t (k, s)
unfolding insert
is_due_at-insert t k s [] h = ground (arith, eq_iff k k)
is_due_at-insert t k s ((j, r) ∷ m) h = elim (Bool-cases (str_eq j k)) [
  | inl e ↦ absurd (ground (arith, h, e))
  | inr e ↦ rw (e, e) (is_due_at-insert t k s m (ground (arith, h, e)))
]

other_name : (i j k : String) → str_eq j i ≡ true → str_eq i k ≡ false → str_eq j k ≡ false
other_name i j k e h = ground (arith, e, h, eq_iff j i, eq_iff i k, eq_iff j k)

is_due_at-erase :
    (t : ℕ) (k i : String) (m : Dict Slot)
    → str_eq i k ≡ false
    → is_due_at t k (erase i m) ≡ is_due_at t k m
unfolding erase
is_due_at-erase t k i [] h = refl
is_due_at-erase t k i ((j, s) ∷ m) h = elim (Bool-cases (str_eq j i)) [
  | inl e ↦ rw (e, is_due_at-erase t k i m h, other_name i j k e h) refl
  | inr e ↦ rw (e, is_due_at-erase t k i m h) refl
]

is_due_at-erase_all :
    (t : ℕ) (k : String) (l : List String) (m : Dict Slot)
    → contains k l ≡ false
    → is_due_at t k (erase_all l m) ≡ is_due_at t k m
unfolding erase_all
is_due_at-erase_all t k [] m h = refl
is_due_at-erase_all t k (i ∷ l) m h =
    is_due_at-erase_all t k l (erase i m) (ground (arith, h))
    ∙ is_due_at-erase t k i m (ground (arith, h))

-- The treasure is due from one tick on.
abbrev IsDueFrom : ℕ → String → Dict Slot → Type 0
IsDueFrom due k m = (t : ℕ) → is_due_at t k m ≡ leb due t

IsDueFrom-advance :
    (due : ℕ) (k : String) (t : ℕ) (a : AutoReturnScheduler)
    → IsDueFrom due k a.scheduled
    → contains k (advance a t).1 ≡ false
    → IsDueFrom due k (advance a t).0.scheduled
unfolding advance
IsDueFrom-advance due k t a h kept u = is_due_at-erase_all u k _ a.scheduled kept ∙ h u

leb_later : (due t n : ℕ) → leb due (suc t) ≡ true → leb due (t + suc n) ≡ true
leb_later due t n h = ground (arith, h)

leb_moved : (due t n : ℕ) → leb due (suc t + n) ≡ leb due (t + suc n)
leb_moved due t n = ap (leb due) (omega arith)

run_ticks-due :
    (due : ℕ) (k : String) (n t : ℕ) (a : AutoReturnScheduler)
    → IsDueFrom due k a.scheduled
    → t < due
    → contains k (run_ticks n t a).1 ≡ leb due (t + n)
unfolding run_ticks
run_ticks-due due k zero t a h late = ground (arith, late)
run_ticks-due due k (suc n) t a h late =
    let now = (advance-due a (suc t) k).0 ∙ h (suc t) in
    contains-append k (advance a (suc t)).1 (run_ticks n (suc t) (advance a (suc t)).0).1
    ∙ (elim (Bool-cases (leb due (suc t))) [
      | inl e ↦ rw (now, e) (sym (leb_later due t n e))
      | inr e ↦
          rw (now, e)
            (run_ticks-due due k n (suc t) (advance a (suc t)).0
                (IsDueFrom-advance due k (suc t) a h (now ∙ e)) (ground (arith, e))
              ∙ leb_moved due t n)
    ])

IsDueFrom-schedule :
    (p : Platform) (a : AutoReturnScheduler) (k key : String)
    → lookup k a.scheduled ≡ none
    → IsDueFrom (a.current_tick + hold p a.config key) k (schedule p a k key).0.scheduled
unfolding schedule
IsDueFrom-schedule p a k key fresh t = is_due_at-insert t k _ a.scheduled fresh

leb_offset : (t m n : ℕ) → leb (t + m) (t + n) ≡ leb m n
leb_offset t m n = ground arith

-- It is returned within n ticks just if it is held for n at most.
run_ticks-schedule :
    (p : Platform) (a : AutoReturnScheduler) (k key : String) (n : ℕ)
    → IsRange a.config
    → lookup k a.scheduled ≡ none
    → contains k (run_ticks n a.current_tick (schedule p a k key).0).1 ≡ leb (hold p a.config key) n
run_ticks-schedule p a k key n r fresh =
    run_ticks-due (a.current_tick + hold p a.config key) k n a.current_tick (schedule p a k key).0
      (IsDueFrom-schedule p a k key fresh)
      (omega (arith, r.positive, (hold-bounds p a.config key r.ordered).0))
    ∙ leb_offset a.current_tick (hold p a.config key) n

-- A treasure that is scheduled, and was not scheduled before, with bounds that are positive and in
-- order: if the clock ticks on, it is returned within `max_operations` ticks, and in fewer than
-- `min_operations` ticks it is not, whatever else is scheduled.
pub schedule_returned :
    (p : Platform) (a : AutoReturnScheduler) (k key : String)
    → IsRange a.config
    → lookup k a.scheduled ≡ none
    → (contains k (run_ticks a.config.max_operations a.current_tick (schedule p a k key).0).1
        ≡ true)
      × ((n : ℕ)
          → n < a.config.min_operations
          → contains k (run_ticks n a.current_tick (schedule p a k key).0).1 ≡ false)
schedule_returned p a k key r fresh =
    let (least, most) = hold-bounds p a.config key r.ordered in
    (
      run_ticks-schedule p a k key a.config.max_operations r fresh ∙ ground (arith, most),
      λ n early. run_ticks-schedule p a k key n r fresh ∙ ground (arith, least, early),
    )
