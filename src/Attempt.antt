-- ===== src/Attempt.antt =====
-- Code that may raise and keeps no state: chains of `Result`, and what a success says of its parts.
use mathlib.Core.Path.{subst}
use dogdb.Prelude.{
  if◌then◌else◌, Option, none, some, ap, ◌≡◌, refl, Bool, true, false, List, [], ◌∷◌,
}
use dogdb.Models.{Error}
use dogdb.Exec.{Result, ok, err}

infixl 5 ◌>>=◌ ◌>>◌
abbrev pub ◌>>=◌ {ℓ κ} : {A : Type ℓ} {B : Type κ} → Result A → (A → Result B) → Result B
ok a >>= next = next a
err e >>= next = err e

abbrev pub ◌>>◌ {ℓ} : {B : Type ℓ} → Result (Unit {0}) → Result B → Result B
m >> rest = m >>= λ _. rest

-- `if test: raise error`
abbrev pub refuse : Bool → Error → Result (Unit {0})
refuse true e = err e
refuse false e = ok tt

-- What follows a lookup, which raises when nothing is found.
unfoldable pub found {ℓ κ} :
    {A : Type ℓ} {B : Type κ} → Option A → Error → (A → Result B) → Result B
found none e next = err e
found (some a) e next = next a

-- The results of a call on each element, in order; the first exception ends the loop.
unfoldable pub each {ℓ κ} : {A : Type ℓ} {B : Type κ} → (A → Result B) → List A → Result (List B)
each f [] = ok []
each f (a ∷ l) = do b ← f a; bs ← each f l; ok (b ∷ bs)

-- A chain that succeeds has a first part that succeeds.
pub >>=-eq-ok {ℓ κ} :
    {A : Type ℓ} {B : Type κ} (m : Result A) (next : A → Result B) {b : B}
    → (m >>= next) ≡ ok b
    → (a : A) × (m ≡ ok a) × (next a ≡ ok b)
>>=-eq-ok (err e) next h = cc
>>=-eq-ok (ok a) next h = (a, refl, h)

pub refuse-eq-ok : (test : Bool) (e : Error) {u : Unit {0}} → refuse test e ≡ ok u → test ≡ false
refuse-eq-ok true e h = cc
refuse-eq-ok false e h = refl

value_or {ℓ} : {A : Type ℓ} → A → Result A → A
value_or a (ok b) = b
value_or a (err e) = a

-- `P` holds of the result, if there is one.
unfoldable pub Makes {ℓ} : {A : Type ℓ} → (A → Type ℓ) → Result A → Type ℓ
Makes P (ok a) = P a
Makes P (err e) = Unit

module _ {ℓ} {B : Type ℓ} (P : B → Type ℓ) where
  pub Makes->>= :
      {A : Type ℓ} (Q : A → Type ℓ) (m : Result A) (next : A → Result B)
      → Makes Q m
      → ((a : A) → Q a → Makes P (next a))
      → Makes P (m >>= next)
  unfolding Makes
  Makes->>= Q (ok a) next w k = k a w
  Makes->>= Q (err e) next w k = tt

  -- A part of a chain of which nothing is needed.
  pub Makes->>=_any {κ} :
      {C : Type κ} (m : Result C) (next : C → Result B)
      → ((c : C) → Makes P (next c))
      → Makes P (m >>= next)
  unfolding Makes
  Makes->>=_any (ok c) next k = k c
  Makes->>=_any (err e) next k = tt

  pub Makes-ok : (r : Result B) {b : B} → Makes P r → r ≡ ok b → P b
  unfolding Makes value_or
  Makes-ok (ok b) w e = subst P (ap (value_or b) e) w
  Makes-ok (err e) w h = cc h

  pub Makes-result : (r : Result B) → ((b : B) → r ≡ ok b → P b) → Makes P r
  unfolding Makes
  Makes-result (ok b) k = k b refl
  Makes-result (err e) k = tt

  -- `if test: raise error`, then the value
  pub Makes-if :
      (test : Bool) (e : Error) (b : B)
      → (test ≡ false → P b)
      → Makes P (if test then err e else ok b)
  unfolding Makes
  Makes-if true e b w = tt
  Makes-if false e b w = w refl

  pub Makes-found {κ} :
      {A : Type κ} (o : Option A) (e : Error) (next : A → Result B)
      → ((a : A) → Makes P (next a))
      → Makes P (found o e next)
  unfolding Makes found
  Makes-found none e next k = tt
  Makes-found (some a) e next k = k a

pub Makes-refuse : (test : Bool) (e : Error) → Makes (λ u. test ≡ false) (refuse test e)
unfolding Makes
Makes-refuse true e = tt
Makes-refuse false e = refl
