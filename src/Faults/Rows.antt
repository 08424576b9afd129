-- ===== src/Faults/Rows.antt =====
-- The changes that the faults make to rows and columns (core/faults.py of src/dogdb), as functions
-- of the index that the decision gives.
use Prim.Native.String.{◌∷◌ as char_cons, [] as empty_text}
use dogdb.Prelude.{
  ℕ, zero, suc, ◌+◌, String, Bool, true, false, Option, none, some, List, [], ◌∷◌, ◌++◌,
  if◌then◌else◌, take, drop, set, get_elem?,
}
use dogdb.Models.{Value, null, real, text, dec, Row}
use dogdb.Platform.{Platform}
use dogdb.Policy.{ChewProfile, utf8_truncate, precision_loss, nullify}

module _ {ℓ} {A : Type ℓ} where
  -- rows[:i] + rows[i + 1:]
  unfoldable pub remove_at : ℕ → List A → List A
  remove_at i l = take i l ++ drop (i + 1) l

  -- rows.insert(i, row)
  unfoldable pub insert_at : ℕ → A → List A → List A
  insert_at i x l = take i l ++ x ∷ drop i l

  -- l[i], l[j] = l[j], l[i]; none for an index out of range, which raises
  unfoldable pub swap : ℕ → ℕ → List A → Option (List A)
  swap i j l = elim (get_elem? l i) [
    | none ↦ none
    | some x ↦ (elim (get_elem? l j) [ none ↦ none | some y ↦ some (set (set l i y) j x) ])
  ]

  -- The loop of `_shuffle`, for index = n down to 1, with the swap that each index gives.
  unfoldable pub swaps : (ℕ → ℕ) → ℕ → List A → Option (List A)
  unfolding swap
  swaps choose zero l = some l
  swaps choose (suc n) l = elim (swap (suc n) (choose (suc n)) l) [
    | none ↦ none
    | some l' ↦ swaps choose n l'
  ]

-- [row for index, row in enumerate(rows) if index not in hidden]
abbrev pub mem_number : ℕ → List ℕ → Bool
mem_number i [] = false
mem_number i (j ∷ l) = elim (Prim.Native.Nat.compare j i) [
  | Prim.Native.Nat.Ordering.eq ↦ true
  | _ ↦ mem_number i l
]

unfoldable pub hide_rows : List ℕ → ℕ → List Row → List Row
hide_rows hidden i [] = []
hide_rows hidden i (r ∷ l) =
    if mem_number i hidden then hide_rows hidden (suc i) l else r ∷ hide_rows hidden (suc i) l

-- s[:-1]
unfoldable pub drop_last : String → String
drop_last empty_text = empty_text
drop_last (char_cons c empty_text) = empty_text
drop_last (char_cons c (char_cons d s)) = char_cons c (drop_last (char_cons d s))

module _ (p : Platform) where
  -- `rounded if rounded != value else _INELIGIBLE`
  unfoldable pub round_decimal : Value → Option Value
  round_decimal (dec x) =
      if p.is_finite_decimal x
      then (elim (p.quantize_one x) [
        | none ↦ none
        | some y ↦ if p.eq_decimal y x then none else some (dec y)
      ])
      else none
  round_decimal _ = none

  -- `_chew_value`; none for `_INELIGIBLE`
  unfoldable pub chew_value : ChewProfile → Value → Option Value
  unfolding round_decimal drop_last
  chew_value utf8_truncate (text (char_cons c s)) = some (text (drop_last (char_cons c s)))
  chew_value utf8_truncate _ = none
  chew_value precision_loss (real x) =
      if p.is_finite x then (if p.eq (p.round x) x then none else some (real (p.round x))) else none
  chew_value precision_loss v = round_decimal v
  chew_value nullify null = none
  chew_value nullify _ = some null

-- A cell that can be corrupted, with its new value.
pub record Cell : Type 0 where
  pub row_index : ℕ
  pub column_index : ℕ
  pub mutated : Value

module _ (p : Platform) (profile : ChewProfile) where
  unfoldable pub cells_of_row : ℕ → ℕ → Row → List Cell
  unfolding chew_value
  cells_of_row i j [] = []
  cells_of_row i j (v ∷ row) =
      let rest = cells_of_row i (suc j) row in
      (elim (chew_value p profile v) [
        | none ↦ rest
        | some m ↦ record { row_index = i; column_index = j; mutated = m } ∷ rest
      ])

  unfoldable pub cells_of : ℕ → List Row → List Cell
  unfolding cells_of_row
  cells_of i [] = []
  cells_of i (row ∷ rows) = cells_of_row i 0 row ++ cells_of (suc i) rows

-- The profiles that have a cell to corrupt, with their cells.
abbrev pub with_cells :
    ChewProfile → List Cell → List (ChewProfile × List Cell) → List (ChewProfile × List Cell)
with_cells profile [] rest = rest
with_cells profile (c ∷ l) rest = (profile, c ∷ l) ∷ rest

unfoldable pub eligible : Platform → List ChewProfile → List Row → List (ChewProfile × List Cell)
unfolding cells_of
eligible p [] rows = []
eligible p (profile ∷ l) rows = with_cells profile (cells_of p profile 0 rows) (eligible p l rows)

-- rows[i][j] = value; none if the row or the cell is missing, which raises
unfoldable pub set_cell : List Row → Cell → Option (List Row)
set_cell rows c = elim (get_elem? rows c.row_index) [
  | none ↦ none
  | some row ↦ (elim (get_elem? row c.column_index) [
    | none ↦ none
    | some v ↦ some (set rows c.row_index (set row c.column_index c.mutated))
  ])
]
