-- ===== src/Exec.antt =====
-- Methods that change an object and may raise: what was written before a raise stays written, so
-- the state comes back beside the error too.
pub mod Keeps
pub mod Gives
use dogdb.Prelude.{ℕ, List, Option, none, some, get_elem?, Bool, true, false}
use dogdb.Models.{Error, index_error}

pub data Result {ℓ} (A : Type ℓ) : Type ℓ where
  ok : A → Result A
  err : Error → Result A

abbrev pub Exec : Type 0 → Type 0 → Type 0
Exec S A = S → Result A × S

module _ {S A : Type 0} where
  unfoldable pub pure : A → Exec S A
  pure a s = (ok a, s)

  unfoldable pub raise : Error → Exec S A
  raise e s = (err e, s)

  -- A test of the state that changes nothing.
  unfoldable pub gets : (S → A) → Exec S A
  gets f s = (ok (f s), s)

  -- l[i], which raises `IndexError` out of range.
  unfoldable pub index : List A → ℕ → Exec S A
  index l i s = elim (get_elem? l i) [ none ↦ (err index_error, s) | some a ↦ (ok a, s) ]

unfoldable pub modify : {S : Type 0} → (S → S) → Exec S (Unit {0})
modify f s = (ok tt, f s)

module _ {S A B : Type 0} where
  abbrev pub continue : Result A → (A → Exec S B) → Exec S B
  continue (ok a) f s = f a s
  continue (err e) f s = (err e, s)

  infixl 10 ◌>>=◌ ◌>>◌
  unfoldable pub ◌>>=◌ : Exec S A → (A → Exec S B) → Exec S B
  unfolding pure raise gets modify
  ◌>>=◌ m f s = let (r, s') = m s in continue r f s'

  abbrev pub ◌>>◌ : Exec S A → Exec S B → Exec S B
  m >> n = m >>= λ _. n

-- `if test: m`
unfoldable pub when : {S : Type 0} → Bool → Exec S (Unit {0}) → Exec S (Unit {0})
unfolding pure
when true m = m
when false m = pure tt

-- The name under which proofs and tests compute with the actions.
unfoldable pub exec : Unit {0}
unfolding ◌>>=◌ pure raise gets modify index when
exec = tt
