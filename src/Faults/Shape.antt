-- ===== src/Faults/Shape.antt =====
-- What the faults on rows deliver (core/faults.py of src/dogdb): ECHO, TAIL_CHASE, PAGE_HOLE.
use dogdb.Prelude.{
  ℕ, zero, suc, ◌+◌, ◌-◌, ◌%◌, ◌<◌, String, ◌≡◌, refl, sym, ap, false, List, [], ◌∷◌, ◌++◌, some,
  ◌==◌, take, drop, length, get_elem?, arith, get_elem?-lt, take-append-drop, length-take,
  length-drop,
}
use dogdb.Prelude.Dict.{Dict}
use dogdb.Models.{LogicalResult, Decision, Row, Fault, echo, tail_chase, page_hole}
use dogdb.Platform.{Platform, derived_index, derived_number}
use dogdb.EventLog.{Event, Detail, stamp}
use native.Mathlib.Numerals.{unary_clauses}
use dogdb.Policy.{FaultTaxonomy, taxonomy_of, taxonomy, FaultPolicy, Mode, quiet, error}
use dogdb.Session.{Config}
use dogdb.Exec.{index}
use dogdb.Exec.Gives.{
  Gives, Gives-pure, Gives-index, Gives-bind, Returns, Returns-gets, Returns-modify,
}
use dogdb.Faults.Record.{event, log_event}
use dogdb.Faults.Rows.{insert_at}
use dogdb.Faults.Inject.{
  with_rows, inject_echo, inject_tail_chase, finish_tail_chase, inject_page_hole,
}

-- A draw among `n` is below `n`.
pub Gives-derived_index :
    {S : Type 0} (p : Platform) (d : Decision) (tag : String) (n : ℕ)
    → 0 < n
    → Gives {S = S} (derived_index p d tag n) (λ i. i < n)
unfolding derived_index
Gives-derived_index p d tag n h =
    rw (positive_size n h) (Gives-pure (derived_number p d.decision_key tag % n) (omega arith))
  where
    positive_size : (n : ℕ) → 0 < n → (n == 0) ≡ false
    positive_size n h = ground arith

Returns-log_event : (e : Event) → Returns (log_event e)
unfolding log_event
Returns-log_event e = record { value = λ s. stamp s.events e; returns = λ s. refl; holds = λ s. tt }

-- A fault that the taxonomy has is recorded.
pub Returns-event :
    (p : Platform) (c : Config) (d : Decision) (f : Fault) (outcome : String)
    (details : Dict Detail) (t : FaultTaxonomy)
    → taxonomy_of c.policy f ≡ some t
    → Returns (event p c d f outcome details)
unfolding event
Returns-event p c d f outcome details t e =
    rw (e, event)
      (Gives-bind _ _ (Returns-gets _) (λ id _.
        Gives-bind _ _ (Returns-log_event _)
          (λ e _. Gives-bind _ _ (Returns-modify _) (λ _ _. Gives-pure e tt))))

-- An index in range names an element, which splits the list.
pub Gives-index_in :
    {S A : Type 0} (l : List A) (i : ℕ)
    → i < length l
    → Gives {S = S} (index l i) (λ x. get_elem? l i ≡ some x)
Gives-index_in l i h = let (x, e) = get_elem?-lt {0} l i h in Gives-index l i x e e

pub split_at :
    {A : Type 0} (l : List A) (i : ℕ) (x : A)
    → get_elem? l i ≡ some x
    → l ≡ take i l ++ x ∷ drop (i + 1) l
split_at [] i x e = cc e
split_at (y ∷ l) zero x e = cc e
split_at (y ∷ l) (suc i) x e =
    simp unary_clauses (ap (◌∷◌ y) (simp unary_clauses at (split_at l i x e)))

insert_at-next :
    {A : Type 0} (l : List A) (i : ℕ) (x : A)
    → get_elem? l i ≡ some x
    → insert_at (i + 1) x l ≡ take i l ++ x ∷ x ∷ drop (i + 1) l
unfolding insert_at
insert_at-next [] i x e = cc e
insert_at-next (y ∷ l) zero x e = cc e
insert_at-next (y ∷ l) (suc i) x e =
    simp unary_clauses (ap (◌∷◌ y) (simp unary_clauses at (insert_at-next l i x e)))

taxonomy-tail_chase : (m : Mode) → (t : FaultTaxonomy) × (taxonomy tail_chase (some m) ≡ some t)
unfolding taxonomy
taxonomy-tail_chase quiet = (_, refl)
taxonomy-tail_chase error = (_, refl)

taxonomy_of-tail_chase :
    (policy : FaultPolicy) → (t : FaultTaxonomy) × (taxonomy_of policy tail_chase ≡ some t)
unfolding taxonomy_of
taxonomy_of-tail_chase policy = taxonomy-tail_chase policy.tail_chase_mode

-- One row of the result stands twice, in place.
abbrev pub DoublesOne : LogicalResult → LogicalResult → Type 0
DoublesOne result r =
    (before : List Row) × (row : Row) × (after : List Row) × (result.rows ≡ before ++ row ∷ after)
    × (r ≡ with_rows result (before ++ row ∷ row ∷ after))

-- At least one row is missing from the end, and at least one from the start.
abbrev pub LosesEnd : LogicalResult → LogicalResult → Type 0
LosesEnd result r =
    (kept : List Row) × (lost : List Row) × (result.rows ≡ kept ++ lost)
    × (0 < length lost)
    × (r ≡ with_rows result kept)

abbrev pub LosesStart : LogicalResult → LogicalResult → Type 0
LosesStart result r =
    (lost : List Row) × (kept : List Row) × (result.rows ≡ lost ++ kept)
    × (0 < length lost)
    × (r ≡ with_rows result kept)

module _ (p : Platform) (c : Config) (d : Decision) (result : LogicalResult) where
  -- ECHO, for a result with rows: it returns the rows of the backend with one row given twice in
  -- place, and their number.
  pub inject_echo-rows :
      0 < length result.rows → Gives (inject_echo p c d result) (DoublesOne result)
  unfolding inject_echo taxonomy_of
  inject_echo-rows h =
      Gives-bind _ _ (Gives-derived_index p d "rows:ECHO" (length result.rows) h) (λ i within.
        Gives-bind _ _ (Gives-index_in result.rows i within) (λ row e.
          Gives-bind _ _ (Returns-event p c d echo "rows_duplicated" _ _ refl) (λ _ _.
            Gives-pure _ (
              take i result.rows,
              row,
              drop (i + 1) result.rows,
              split_at result.rows i row e,
              ap (with_rows result) (insert_at-next result.rows i row e),
            ))))

  -- TAIL_CHASE in silent mode, for a result with rows: it returns the first rows of the backend, at
  -- least one fewer, and their number.
  pub inject_tail_chase-rows :
      c.policy.tail_chase_mode ≡ quiet
      → 0 < length result.rows
      → Gives (inject_tail_chase p c d result) (LosesEnd result)
  unfolding inject_tail_chase finish_tail_chase
  inject_tail_chase-rows mode h =
      Gives-bind _ _ (Gives-derived_index p d "rows:TAIL_CHASE" (length result.rows) h) (λ i within.
        Gives-bind _ _ (Returns-event p c d tail_chase _ _ _ (taxonomy_of-tail_chase c.policy).1)
          (λ e _. rw mode (
            Gives-pure _ (
              take (length result.rows - (1 + i)) result.rows,
              drop (length result.rows - (1 + i)) result.rows,
              sym (take-append-drop {0} (length result.rows - (1 + i)) result.rows),
              omega (arith, within, length-drop {0} (length result.rows - (1 + i)) result.rows),
              refl,
            ))))

  -- PAGE_HOLE, for a result with rows: it returns the last rows of the backend, at least one fewer,
  -- and their number.
  pub inject_page_hole-rows :
      0 < length result.rows → Gives (inject_page_hole p c d result) (LosesStart result)
  unfolding inject_page_hole taxonomy_of
  inject_page_hole-rows h =
      Gives-bind _ _ (Gives-derived_index p d "rows:PAGE_HOLE" (length result.rows) h) (λ i within.
        Gives-bind _ _ (Returns-event p c d page_hole "page_hole" _ _ refl) (λ _ _. Gives-pure _ (
          take (1 + i) result.rows,
          drop (1 + i) result.rows,
          sym (take-append-drop {0} (1 + i) result.rows),
          omega (arith, within, length-take {0} (1 + i) result.rows),
          refl,
        )))
