-- ===== src/Faults/Order.antt =====
-- The swaps of SHUFFLE (core/faults.py of src/dogdb).
use dogdb.Prelude.{
  ℕ, zero, suc, ◌-◌, ◌≤◌, ◌<◌, ◌≡◌, refl, ap, ◌∙◌, true, List, [], ◌∷◌, Option, some, set,
  get_elem?, length, get_elem?-lt, length-set, arith, Bool-cases, inl, inr,
}
use mathlib.Core.Path.{subst}
use mathlib.Core.Option.{some-injective}
use mathlib.Core.List.{Perm}
use mathlib.Core.List.Perm
use dogdb.Models.{LogicalResult, Decision, Row, shuffle}
use dogdb.Platform.{Platform}
use dogdb.Policy.{taxonomy_of}
use dogdb.Session.{Config}
use dogdb.Exec.Gives.{Gives, Gives-pure, Gives-bind}
use dogdb.Faults.Rows.{swap, swaps}
use dogdb.Faults.Inject.{with_rows, or_index_error, swap_choice, settle, rows_eq, inject_shuffle}
use dogdb.Faults.Shape.{Returns-event}

module _ {A : Type 0} where
  -- Writing `v` over `x` trades one for the other.
  Perm-set : (l : List A) (i : ℕ) (x v : A) → get_elem? l i ≡ some x → Perm (v ∷ l) (x ∷ set l i v)
  Perm-set [] i x v e = cc e
  Perm-set (y ∷ l) zero x v e =
      subst (λ z. Perm (v ∷ y ∷ l) (z ∷ v ∷ l)) (some-injective y x e) (Perm.swap y v l)
  Perm-set (y ∷ l) (suc i) x v e =
      Perm.trans (Perm.swap y v l)
        (Perm.trans (Perm.cons y (Perm-set l i x v e)) (Perm.swap x y (set l i v)))

  get_elem?-set :
      (l : List A) (i j : ℕ) (x y : A)
      → get_elem? l i ≡ some x
      → get_elem? l j ≡ some y
      → get_elem? (set l i y) j ≡ some y
  get_elem?-set [] i j x y e f = cc e
  get_elem?-set (z ∷ l) zero zero x y e f = refl
  get_elem?-set (z ∷ l) zero (suc j) x y e f = f
  get_elem?-set (z ∷ l) (suc i) zero x y e f = f
  get_elem?-set (z ∷ l) (suc i) (suc j) x y e f = get_elem?-set l i j x y e f

  swap-some :
      (i j : ℕ) (l : List A) (x y : A)
      → get_elem? l i ≡ some x
      → get_elem? l j ≡ some y
      → swap i j l ≡ some (set (set l i y) j x)
  unfolding swap
  swap-some i j l x y e f = rw (swap, e, f) refl

  -- A swap of two positions in range gives a permutation.
  swap-Perm :
      (i j : ℕ) (l : List A)
      → i < length l
      → j < length l
      → (l' : List A) × (swap i j l ≡ some l') × (length l' ≡ length l) × Perm l l'
  swap-Perm i j l hi hj =
      let (x, e) = get_elem?-lt {0} l i hi in
      let (y, f) = get_elem?-lt {0} l j hj in
      (
        set (set l i y) j x,
        swap-some i j l x y e f,
        length-set (set l i y) j x ∙ length-set l i y,
        Perm.cons_inv {a = y} (
            Perm.trans (Perm-set l i x y e)
              (Perm-set (set l i y) j y x (get_elem?-set l i j x y e f))),
      )

  swaps-suc :
      (choose : ℕ → ℕ) (n : ℕ) (l m l' : List A)
      → swap (suc n) (choose (suc n)) l ≡ some m
      → swaps choose n m ≡ some l'
      → swaps choose (suc n) l ≡ some l'
  unfolding swaps
  swaps-suc choose n l m l' e f = rw (swaps, e) f

  -- So does the loop of `_shuffle`, if it draws at each index one that is not above it.
  swaps-Perm :
      (choose : ℕ → ℕ) (n : ℕ) (l : List A)
      → ((i : ℕ) → i ≤ n → choose i ≤ i)
      → n < length l
      → (l' : List A) × (swaps choose n l ≡ some l') × (length l' ≡ length l) × Perm l l'
  unfolding swaps
  swaps-Perm choose zero l h k = (l, refl, refl, Perm.refl l)
  swaps-Perm choose (suc n) l h k =
      let (m, e, same, perm) =
        swap-Perm (suc n) (choose (suc n)) l k (omega (arith, h (suc n) (omega arith))) in
      let (l', e', same', perm') =
        swaps-Perm choose n m (λ i le. h i (omega arith)) (omega arith) in
      (l', swaps-suc choose n l m l' e e', same' ∙ same, Perm.trans perm perm')

settle-same :
    (p : Platform) (original rows l' : List Row)
    → rows_eq p rows original ≡ true
    → swap 0 1 rows ≡ some l'
    → settle p original rows ≡ some l'
unfolding settle
settle-same p original rows l' e f = rw e f

settle-Perm :
    (p : Platform) (original rows : List Row)
    → 1 < length rows
    → (l' : List Row) × (settle p original rows ≡ some l') × Perm rows l'
unfolding settle
settle-Perm p original rows h = elim (Bool-cases (rows_eq p rows original)) [
  | inl e ↦
      let (l', f, same, perm) = swap-Perm 0 1 rows (omega arith) h in
      (l', settle-same p original rows l' e f, perm)
  | inr e ↦ (rows, rw e refl, Perm.refl rows)
]

pub Gives-or_index_error :
    {A : Type 0} (o : Option A) (a : A) → o ≡ some a → Gives (or_index_error o) (λ b. b ≡ a)
unfolding or_index_error
Gives-or_index_error o a e = rw e (Gives-pure a refl)

-- The rows are those of the result in some order.
abbrev pub Reorders : LogicalResult → LogicalResult → Type 0
Reorders result r = (rows : List Row) × Perm result.rows rows × (r ≡ with_rows result rows)

-- SHUFFLE, for a result with two rows or more and draws that stay at or below their index: it
-- returns a permutation of the rows of the backend.
pub inject_shuffle-Perm :
    (p : Platform) (c : Config) (d : Decision) (result : LogicalResult)
    → 1 < length result.rows
    → ((i : ℕ) → i < length result.rows → swap_choice p d i ≤ i)
    → Gives (inject_shuffle p c d result) (Reorders result)
unfolding inject_shuffle taxonomy_of
inject_shuffle-Perm p c d result many h =
    let (l, e, same, perm) =
      swaps-Perm (swap_choice p d) (length result.rows - 1) result.rows (λ i le. h i (omega arith))
        (omega arith) in
    let (l', e', perm') = settle-Perm p result.rows l (omega (arith, same)) in
    Gives-bind _ _ (Gives-or_index_error _ l e) (λ swapped is.
      Gives-bind _ _ (Gives-or_index_error _ l' (rw is e')) (λ rows is'.
        Gives-bind _ _ (Returns-event p c d shuffle "rows_reordered" [] _ refl)
          (λ _ _. Gives-pure _ (l', Perm.trans perm perm', ap (with_rows result) is'))))
