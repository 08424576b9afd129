-- ===== src/Engine/Cached/Leads.antt =====
-- Actions that lead from one property of the state to another, whether they return or raise.
use dogdb.Prelude.{Bool, true, false}
use dogdb.Exec.{Result, ok, err, Exec, when, pure, continue, ◌>>=◌}
use dogdb.Exec.Keeps.{Keeps}

pub record Leads {S A : Type 0} (P Q : S → Type 0) (m : Exec S A) : Type 0 where
  pub at : (s : S) → P s → Q (m s).1

rest_keeps :
    {S A B : Type 0} {Q : S → Type 0} (r : Result A) (f : A → Exec S B)
    → ((a : A) → Keeps Q (f a))
    → (s : S) → Q s
    → Q (continue r f s).1
rest_keeps (ok a) f k s h = (k a).at s h
rest_keeps (err e) f k s h = h

module _ {S A B : Type 0} {P Q : S → Type 0} where
  first_keeps :
      (r : Result A) (f : A → Exec S B)
      → ((s : S) → P s → Q s)
      → ((a : A) → Leads P Q (f a))
      → (s : S) → P s
      → Q (continue r f s).1
  first_keeps (ok a) f weaker l s h = (l a).at s h
  first_keeps (err e) f weaker l s h = weaker s h

  -- The first action keeps `P`, and `P` is the stronger of the two.
  pub Leads-bind :
      (first : Exec S A) (rest : A → Exec S B)
      → ((s : S) → P s → Q s)
      → Keeps P first
      → ((a : A) → Leads P Q (rest a))
      → Leads P Q (first >>= rest)
  unfolding ◌>>=◌
  Leads-bind first rest weaker k l = record {
    at = λ s h. first_keeps (first s).0 rest weaker l (first s).1 (k.at s h);
  }

  -- The first action leads there, and the others keep what it reached.
  pub Leads-then :
      (first : Exec S A) (rest : A → Exec S B)
      → Leads P Q first
      → ((a : A) → Keeps Q (rest a))
      → Leads P Q (first >>= rest)
  unfolding ◌>>=◌
  Leads-then first rest l k = record {
    at = λ s h. rest_keeps (first s).0 rest k (first s).1 (l.at s h);
  }

pub Leads-when :
    {S : Type 0} {P Q : S → Type 0} (b : Bool) (m : Exec S (Unit {0}))
    → ((s : S) → P s → Q s)
    → Leads P Q m
    → Leads P Q (when b m)
unfolding when pure
Leads-when true m weaker l = l
Leads-when false m weaker l = record { at = weaker }
