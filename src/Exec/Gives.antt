-- ===== src/Exec/Gives.antt =====
-- Total correctness of actions: from every state the action returns, and what it returns has a
-- property.
use dogdb.Prelude.{ℕ, ◌≡◌, refl, List, some, get_elem?}
use dogdb.Exec.{Result, ok, Exec, pure, gets, modify, index, continue, ◌>>=◌}

pub record Gives {S A : Type 0} (m : Exec S A) (P : A → Type 0) : Type 0 where
  pub value : S → A
  pub returns : (s : S) → (m s).0 ≡ ok (value s)
  pub holds : (s : S) → P (value s)

module _ {S A : Type 0} {P : A → Type 0} where
  pub Gives-pure : (a : A) → P a → Gives {S = S} (pure a) P
  unfolding pure
  Gives-pure a h = record { value = λ s. a; returns = λ s. refl; holds = λ s. h }

  pub Gives-index :
      (l : List A) (i : ℕ) (x : A) → get_elem? l i ≡ some x → P x → Gives {S = S} (index l i) P
  unfolding index
  Gives-index l i x e h = record {
    value = λ s. x;
    returns = λ s. rw (e, index) refl;
    holds = λ s. h;
  }

pub Gives-weaken :
    {S A : Type 0} {P Q : A → Type 0} {m : Exec S A} → Gives m P → ((a : A) → P a → Q a) → Gives m Q
Gives-weaken g h = record {
  value = g.value;
  returns = g.returns;
  holds = λ s. h (g.value s) (g.holds s);
}

-- An action that returns from every state.
abbrev pub Returns : {S A : Type 0} → Exec S A → Type 0
Returns m = Gives m (λ a. Unit {0})

pub Returns-gets : {S A : Type 0} (f : S → A) → Returns (gets f)
unfolding gets
Returns-gets f = record { value = f; returns = λ s. refl; holds = λ s. tt }

pub Returns-modify : {S : Type 0} (f : S → S) → Returns (modify f)
unfolding modify
Returns-modify f = record { value = λ s. tt; returns = λ s. refl; holds = λ s. tt }

pub continue-ok :
    {S A B : Type 0} (r : Result A) (a : A) (f : A → Exec S B) (s : S)
    → r ≡ ok a
    → continue r f s ≡ f a s
continue-ok r a f s e = rw e refl

module _ {S A B : Type 0} {P : A → Type 0} {Q : B → Type 0} where
  -- What the first action gives is what the rest starts from.
  pub Gives-bind :
      (m : Exec S A) (f : A → Exec S B)
      → Gives m P
      → ((a : A) → P a → Gives (f a) Q)
      → Gives (m >>= f) Q
  unfolding ◌>>=◌
  Gives-bind m f g h = record {
    value = λ s. (h (g.value s) (g.holds s)).value (m s).1;
    returns = λ s.
        rw (continue-ok (m s).0 (g.value s) f (m s).1 (g.returns s))
          ((h (g.value s) (g.holds s)).returns (m s).1);
    holds = λ s. (h (g.value s) (g.holds s)).holds (m s).1;
  }
