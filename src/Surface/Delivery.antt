-- ===== src/Surface/Delivery.antt =====
-- What a client of DuckDBProxy (src/dogdb/proxy/connection.py) gets by any fetches.
use dogdb.Prelude.{
  ℕ, zero, suc, ◌+◌, ◌≡◌, refl, ap, ◌∙◌, Option, none, some, List, [], ◌∷◌, ◌++◌, leb, length, take,
  drop, get_elem?, get_elem?-lt, arith, Bool-cases, inl, inr,
}
use mathlib.Core.List.{append_assoc, append-nil}
use native.Mathlib.Numerals.{unary_clauses}
use dogdb.Models.{LogicalResult, Row}
use dogdb.Surface.{Surface, opened, fetchall, fetchone, fetchmany, amount_of}

pub data Fetch : Type 0 where
  all one : Fetch
  many : Option ℕ → Fetch

abbrev pub row_of : Option Row → List Row
row_of none = []
row_of (some r) = r ∷ []

-- The rows that a fetch gives.
unfoldable pub fetch : Fetch → Surface → List Row × Surface
fetch all s = fetchall s
fetch one s = (row_of (fetchone s).0, (fetchone s).1)
fetch (many size) s = fetchmany size s

unfoldable pub fetches : List Fetch → Surface → List Row × Surface
unfolding fetch
fetches [] s = ([], s)
fetches (f ∷ l) s = ((fetch f s).0 ++ (fetches l (fetch f s).1).0, (fetches l (fetch f s).1).1)

-- The rows that a surface has not given.
abbrev pub left_over : Surface → List Row
left_over s = drop s.offset s.result.rows

drop-length : (l : List Row) → drop (length l) l ≡ []
drop-length [] = refl
drop-length (x ∷ l) = drop-length l

zero_add : (m : ℕ) → 0 + m ≡ m
zero_add m = omega arith

suc_add : (n m : ℕ) → suc n + m ≡ suc (n + m)
suc_add n m = omega arith

drop-add : (n m : ℕ) (l : List Row) → drop (n + m) l ≡ drop m (drop n l)
drop-add zero m l = ap (λ k. drop k l) (zero_add m)
drop-add (suc n) zero [] = simp unary_clauses refl
drop-add (suc n) (suc m) [] = simp unary_clauses refl
drop-add (suc n) m (x ∷ l) = ap (λ k. drop k (x ∷ l)) (suc_add n m) ∙ drop-add n m l

taken : (n : ℕ) (l : List Row) → take n l ++ drop (length (take n l)) l ≡ l
taken zero l = refl
taken (suc n) [] = refl
taken (suc n) (x ∷ l) = ap (◌∷◌ x) (taken n l)

pub drop-next :
    (l : List Row) (i : ℕ) (x : Row) → get_elem? l i ≡ some x → x ∷ drop (i + 1) l ≡ drop i l
drop-next [] i x e = cc e
drop-next (y ∷ l) zero x e = cc e
drop-next (y ∷ l) (suc i) x e = simp unary_clauses (simp unary_clauses at (drop-next l i x e))

left_over-fetchone : (s : Surface) → row_of (fetchone s).0 ++ left_over (fetchone s).1 ≡ left_over s
unfolding fetchone
left_over-fetchone s = elim (Bool-cases (leb (length s.result.rows) s.offset)) [
  | inl h ↦ rw h refl
  | inr h ↦
      (let (x, e) = get_elem?-lt {0} s.result.rows s.offset (ground (arith, h)) in
        rw (h, e) (drop-next s.result.rows s.offset x e))
]

left_over-fetch : (f : Fetch) (s : Surface) → (fetch f s).0 ++ left_over (fetch f s).1 ≡ left_over s
unfolding fetch fetchall fetchmany
left_over-fetch all s = rw (drop-length s.result.rows) (append-nil (left_over s))
left_over-fetch one s = left_over-fetchone s
left_over-fetch (many size) s =
    ap (λ l. take (amount_of size) (left_over s) ++ l)
      (drop-add s.offset (length (take (amount_of size) (left_over s))) s.result.rows)
    ∙ taken (amount_of size) (left_over s)

left_over-fetches :
    (l : List Fetch) (s : Surface) → (fetches l s).0 ++ left_over (fetches l s).1 ≡ left_over s
unfolding fetches
left_over-fetches [] s = refl
left_over-fetches (f ∷ l) s =
    append_assoc (fetch f s).0 (fetches l (fetch f s).1).0 (left_over (fetches l (fetch f s).1).1)
    ∙ ap (λ r. (fetch f s).0 ++ r) (left_over-fetches l (fetch f s).1)
    ∙ left_over-fetch f s

-- Whatever a client fetches of a result, by `fetchone`, `fetchmany` and `fetchall` in any order: what
-- it gets and what a last `fetchall` would give are together the rows of the result, in order, each
-- once.
pub fetches_complete :
    (l : List Fetch) (result : LogicalResult)
    → (fetches l (opened result)).0 ++ (fetchall (fetches l (opened result)).1).0 ≡ result.rows
unfolding fetchall
fetches_complete l result = left_over-fetches l (opened result)
