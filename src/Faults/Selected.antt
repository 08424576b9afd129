-- ===== src/Faults/Selected.antt =====
-- FaultEngine.select_candidate and FaultEngine.has_effective_weight (core/faults.py of src/dogdb):
-- which fault is selected, and when none can be.
use dogdb.Prelude.{
  ◌≡◌, refl, ap, Bool, true, false, ◌&&◌, List, [], ◌∷◌, ◌++◌, Option, none, some, All, Bool-cases,
  inl, inr,
}
use dogdb.Models.{Fault, Decision, Phase}
use dogdb.Platform.{Platform}
use dogdb.Mood.{MoodEngine}
use dogdb.Policy.{FaultPolicy}
use dogdb.Faults.{fires, first_firing, select_candidate, priority_of, mem_fault}

-- `f` is the first of the list that passes the test.
pub record IsFirst (test : Fault → Bool) (l : List Fault) (f : Fault) : Type 0 where
  pub before : List Fault
  pub after : List Fault
  pub split : l ≡ before ++ f ∷ after
  pub passes : test f ≡ true
  pub none_before : All (λ g. test g ≡ false) before

-- What a selection says of the list that it is made from.
abbrev pub Selects : (Fault → Bool) → List Fault → Option Fault → Type 0
Selects test l none = All (λ g. test g ≡ false) l
Selects test l (some f) = IsFirst test l f

Selects-skip :
    (test : Fault → Bool) (g : Fault) (l : List Fault) (o : Option Fault)
    → test g ≡ false
    → Selects test l o
    → Selects test (g ∷ l) o
Selects-skip test g l none e h = (e, h)
Selects-skip test g l (some f) e h = record {
  before = g ∷ h.before;
  after = h.after;
  split = ap (◌∷◌ g) h.split;
  passes = h.passes;
  none_before = (e, h.none_before);
}

abbrev pub eligible_and_fires : (Fault → Bool) → List Fault → Fault → Bool
eligible_and_fires fires candidates f = mem_fault f candidates && fires f

Selects-first_firing :
    (fires : Fault → Bool) (candidates l : List Fault)
    → Selects (eligible_and_fires fires candidates) l (first_firing fires candidates l)
unfolding first_firing
Selects-first_firing fires candidates [] = tt
Selects-first_firing fires candidates (f ∷ l) =
    elim (Bool-cases (eligible_and_fires fires candidates f)) [
      | inl h ↦ rw h (record { before = []; after = l; split = refl; passes = h; none_before = tt })
      | inr h ↦ rw h (
          Selects-skip (eligible_and_fires fires candidates) f l _ h
            (Selects-first_firing fires candidates l))
    ]

-- The selected fault is the first in the phase's priority that is a candidate and fires; if none is
-- selected, no candidate in the priority fires.
pub Selects-select_candidate :
    (p : Platform) (policy : FaultPolicy) (mood : Option MoodEngine) (d : Decision)
    (candidates : List Fault) (phase : Phase)
    → Selects
        (eligible_and_fires (fires p policy mood d) candidates)
        (priority_of phase)
        (select_candidate p policy mood d candidates phase)
unfolding select_candidate
Selects-select_candidate p policy mood d candidates phase =
    Selects-first_firing (fires p policy mood d) candidates (priority_of phase)
