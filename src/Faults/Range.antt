-- ===== src/Faults/Range.antt =====
-- The range of the draws of SHUFFLE, and TANGLED_LEASH (core/faults.py of src/dogdb).
use dogdb.Prelude.{
  ℕ, zero, suc, ◌+◌, ◌-◌, ◌≤◌, ◌<◌, String, ◌≡◌, refl, ap, ◌∙◌, List, [], ◌∷◌, ◌++◌, none, some,
  get_elem?, length, arith, Option-cases, inl, inr,
}
use mathlib.Core.Option
use native.Mathlib.Numerals.{unary_clauses}
use dogdb.Models.{LogicalResult, Decision, index_error, tangled_leash}
use dogdb.Platform.{Platform}
use dogdb.Policy.{taxonomy_of}
use dogdb.Session.{Config, Session}
use dogdb.Exec.{err, exec}
use dogdb.Exec.Gives.{Gives, Gives-pure, Gives-bind}
use dogdb.Faults.Rows.{swap, swaps}
use dogdb.Faults.Inject.{or_index_error, swap_choice, inject_shuffle, inject_tangled_leash}
use dogdb.Faults.Shape.{Returns-event, Gives-derived_index}
use dogdb.Faults.Order.{Gives-or_index_error}

get_elem?-none : {A : Type 0} (l : List A) (i : ℕ) → length l ≤ i → get_elem? l i ≡ none
get_elem?-none [] i h = refl
get_elem?-none (x ∷ l) zero h = absurd (omega arith)
get_elem?-none (x ∷ l) (suc i) h = get_elem?-none l i (omega arith)

swap-none : {A : Type 0} (i j : ℕ) (l : List A) → length l ≤ j → swap i j l ≡ none
unfolding swap
swap-none i j l h = elim (Option-cases (get_elem? l i)) [
  | inl e ↦ rw (swap, e) refl
  | inr (x, e) ↦ rw (swap, e, get_elem?-none l j h) refl
]

swaps-none :
    {A : Type 0} (choose : ℕ → ℕ) (n : ℕ) (l : List A)
    → 0 < n
    → length l ≤ choose n
    → swaps choose n l ≡ none
unfolding swaps
swaps-none choose zero l h k = absurd (omega arith)
swaps-none choose (suc n) l h k = rw (swaps, swap-none (suc n) (choose (suc n)) l k) refl

-- SHUFFLE, for a result with two rows or more whose first draw is its index plus one or more: it
-- raises `IndexError`, and nothing is recorded.
pub inject_shuffle-index_error :
    (p : Platform) (c : Config) (d : Decision) (result : LogicalResult) (s : Session)
    → 1 < length result.rows
    → length result.rows ≤ swap_choice p d (length result.rows - 1)
    → inject_shuffle p c d result s ≡ (err index_error, s)
unfolding inject_shuffle or_index_error exec
inject_shuffle-index_error p c d result s many out =
    rw
      (
        swaps-none (swap_choice p d) (length result.rows - 1) result.rows (omega arith) out,
        or_index_error,
      )
      refl

swap-map :
    {A : Type 0} (i j : ℕ) (x : A) (l : List A)
    → swap (suc i) (suc j) (x ∷ l) ≡ Option.map (◌∷◌ x) (swap i j l)
unfolding swap
swap-map i j x l = elim (Option-cases (get_elem? l i)) [
  | inl e ↦ rw (swap, e) refl
  | inr (a, e) ↦ (elim (Option-cases (get_elem? l j)) [
    | inl f ↦ rw (swap, e, f) refl
    | inr (b, f) ↦ rw (swap, e, f) refl
  ])
]

-- A swap of neighbours, in full.
swap-next :
    {A : Type 0} (i : ℕ) (l : List A)
    → i + 1 < length l
    → (before : List A) × (a : A) × (b : A) × (after : List A) × (l ≡ before ++ a ∷ b ∷ after)
      × (swap i (i + 1) l ≡ some (before ++ b ∷ a ∷ after))
unfolding swap
swap-next i [] h = absurd (omega arith)
swap-next i (x ∷ []) h = absurd (omega arith)
swap-next zero (x ∷ y ∷ l) h = ([], x, y, l, refl, refl)
swap-next (suc i) (x ∷ y ∷ l) h =
    let (before, a, b, after, e, f) = swap-next i (y ∷ l) (omega arith) in
    (
      x ∷ before,
      a,
      b,
      after,
      ap (◌∷◌ x) e,
      simp unary_clauses
          (simp unary_clauses at (swap-map i (i + 1) x (y ∷ l) ∙ ap (Option.map (◌∷◌ x)) f)),
    )

-- Two neighbouring columns have each other's names.
abbrev pub SwapsNames : LogicalResult → LogicalResult → Type 0
SwapsNames result r =
    (before : List String) × (a : String) × (b : String) × (after : List String) × (result.columns
      ≡ before ++ a ∷ b ∷ after)
    × (r ≡ record result { columns = before ++ b ∷ a ∷ after })

-- TANGLED_LEASH, for a result with two columns or more: it swaps the names of two neighbouring
-- columns and leaves the rest of the result, the rows and the types, as they are.
pub inject_tangled_leash-columns :
    (p : Platform) (c : Config) (d : Decision) (result : LogicalResult)
    → 1 < length result.columns
    → Gives (inject_tangled_leash p c d result) (SwapsNames result)
unfolding inject_tangled_leash taxonomy_of
inject_tangled_leash-columns p c d result many =
    Gives-bind _ _
      (Gives-derived_index p d "columns:TANGLED_LEASH" (length result.columns - 1) (omega arith))
      (λ left within.
        let (before, a, b, after, e, f) = swap-next left result.columns (omega arith) in
        Gives-bind _ _ (Gives-or_index_error _ (before ++ b ∷ a ∷ after) f) (λ columns is.
          Gives-bind _ _ (Returns-event p c d tangled_leash "column_labels_swapped" _ _ refl)
            (λ _ _.
              Gives-pure _ (before, a, b, after, e, ap (λ l. record result { columns = l }) is))))
