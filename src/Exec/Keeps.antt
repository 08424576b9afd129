-- ===== src/Exec/Keeps.antt =====
-- Invariants of actions: one rule for each way to build an action.
use dogdb.Prelude.{
  ℕ, ◌≡◌, refl, Bool, true, false, List, Option, none, some, if◌then◌else◌, get_elem?, Option-cases,
  inl, inr,
}
use dogdb.Models.{Error}
use dogdb.Exec.{Result, ok, err, Exec, pure, raise, gets, modify, index, when, continue, ◌>>=◌}

-- `m` keeps `P`, whether it returns or raises.
pub record Keeps {S A : Type 0} (P : S → Type 0) (m : Exec S A) : Type 0 where
  pub at : (s : S) → P s → P (m s).1

index-state : {S A : Type 0} (l : List A) (i : ℕ) (s : S) → (index l i s).1 ≡ s
unfolding index
index-state l i s = elim (Option-cases (get_elem? l i)) [
  | inl e ↦ rw (e, index)
  | inr (a, e) ↦ rw (e, index)
]

module _ {S A : Type 0} {P : S → Type 0} where
  pub Keeps-gets : (read : S → A) → Keeps P (gets read)
  unfolding gets
  Keeps-gets read = record { at = λ s held. held }

  pub Keeps-raise : (e : Error) → Keeps P (raise {A = A} e)
  unfolding raise
  Keeps-raise e = record { at = λ s held. held }

  pub Keeps-index : (l : List A) (i : ℕ) → Keeps P (index l i)
  Keeps-index l i = record { at = λ s h. rw index-state h }

  pub Keeps-pure : (a : A) → Keeps P (pure a)
  unfolding pure
  Keeps-pure a = record { at = λ s held. held }

  pub Keeps-option :
      {B : Type 0} (o : Option B) (m : Exec S A) (f : B → Exec S A)
      → Keeps P m
      → ((b : B) → Keeps P (f b))
      → Keeps P (elim o [ none ↦ m | some b ↦ f b ])
  Keeps-option none m f km kf = km
  Keeps-option (some b) m f km kf = kf b

  -- In each branch the test is known.
  pub Keeps-if :
      (test : Bool) (left right : Exec S A) (k : test ≡ true → Keeps P left)
      (l : test ≡ false → Keeps P right)
      → Keeps P (if test then left else right)
  Keeps-if false left right k l = l refl
  Keeps-if true left right k l = k refl

pub Keeps-modify :
    {S : Type 0} {P : S → Type 0} (f : S → S) → ((s : S) → P s → P (f s)) → Keeps P (modify f)
unfolding modify
Keeps-modify f h = record { at = h }

pub Keeps-when :
    {S : Type 0} {P : S → Type 0} (b : Bool) (m : Exec S (Unit {0}))
    → (b ≡ true → Keeps P m)
    → Keeps P (when b m)
unfolding when
Keeps-when true m k = k refl
Keeps-when false m k = Keeps-pure tt

module _ {S A B : Type 0} {P : S → Type 0} where
  Keeps-continue :
      (r : Result A) (f : A → Exec S B)
      → ((a : A) → Keeps P (f a))
      → (s : S) → P s
      → P (continue r f s).1
  Keeps-continue (ok a) f kf s h = (kf a).at s h
  Keeps-continue (err e) f kf s h = h

  pub Keeps-bind :
      (first : Exec S A) (next : A → Exec S B) (k : Keeps P first) (l : (a : A) → Keeps P (next a))
      → Keeps P (first >>= next)
  unfolding ◌>>=◌
  Keeps-bind first next k l = record {
    at = λ s held. Keeps-continue (first s).0 next l (first s).1 (k.at s held);
  }

pub ruleset keeps_rules = (
  Keeps-pure, Keeps-raise, Keeps-gets, Keeps-index, Keeps-if, Keeps-option, Keeps-modify,
  Keeps-when, Keeps-bind,
)
