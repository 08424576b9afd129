-- ===== src/Faults/Cells.antt =====
-- The cells that CHEW can change (`_chew_choice` and `_chew_value` of core/faults.py in src/dogdb).
use dogdb.Prelude.{
  ℕ, String, suc, ◌+◌, ◌<◌, ◌≡◌, ◌≢◌, refl, sym, ap, ◌∙◌, true, none, some, List, [], ◌∷◌, ◌++◌,
  length, get_elem?, All, All-append, arith, Option-cases, inl, inr,
}
use Prim.Native.Char.{Char}
use mathlib.Core.Option.{some-injective}
use Prim.Native.String.{◌∷◌ as char_cons, [] as empty_text}
use dogdb.Models.{Value, null, real, text, dec, Row, Float, Decimal}
use dogdb.Platform.{Platform}
use dogdb.Policy.{ChewProfile, utf8_truncate, precision_loss, nullify}
use dogdb.Faults.Rows.{
  Cell, drop_last, round_decimal, chew_value, cells_of_row, cells_of, with_cells, eligible,
}

module _ (p : Platform) where
  -- A cell of the rows whose value the profile changes, with the value that it makes of it.
  abbrev pub IsCell : List Row → ChewProfile → Cell → Type 0
  IsCell rows profile cell =
      (row : Row) × (v : Value) × (get_elem? rows cell.row_index ≡ some row)
      × (get_elem? row cell.column_index ≡ some v)
      × (chew_value p profile v ≡ some cell.mutated)

  abbrev Shifted : {A : Type 0} → List A → ℕ → List A → Type 0
  Shifted {A} all n rest =
      (k : ℕ) (x : A) → get_elem? rest k ≡ some x → get_elem? all (n + k) ≡ some x

  Shifted-zero : {A : Type 0} (all : List A) → Shifted all 0 all
  Shifted-zero all k x e = let here : 0 + k ≡ k = omega arith in ap (get_elem? all) here ∙ e

  Shifted-suc :
      {A : Type 0} (all : List A) (n : ℕ) (x : A) (rest : List A)
      → Shifted all n (x ∷ rest)
      → Shifted all (suc n) rest
  Shifted-suc all n x rest h k y e =
      let next : suc n + k ≡ n + suc k = omega arith in ap (get_elem? all) next ∙ h (suc k) y e

  Shifted-head :
      {A : Type 0} (all : List A) (n : ℕ) (x : A) (rest : List A)
      → Shifted all n (x ∷ rest)
      → get_elem? all n ≡ some x
  Shifted-head all n x rest h =
      let here : n ≡ n + 0 = omega arith in ap (get_elem? all) here ∙ h 0 x refl

  cells_of_row-All :
      (rows : List Row) (profile : ChewProfile) (i j : ℕ) (row rest : Row)
      → get_elem? rows i ≡ some row
      → Shifted row j rest
      → All (IsCell rows profile) (cells_of_row p profile i j rest)
  unfolding cells_of_row
  cells_of_row-All rows profile i j row [] at within = tt
  cells_of_row-All rows profile i j row (v ∷ rest) at within =
      let others =
        cells_of_row-All rows profile i (suc j) row rest at (Shifted-suc row j v rest within) in
      elim (Option-cases (chew_value p profile v)) [
        | inl e ↦ rw (e, All) others
        | inr (m, e) ↦ rw (e, All) ((row, v, at, Shifted-head row j v rest within, e), others)
      ]

  cells_of-All :
      (rows : List Row) (profile : ChewProfile) (i : ℕ) (rest : List Row)
      → Shifted rows i rest
      → All (IsCell rows profile) (cells_of p profile i rest)
  unfolding cells_of
  cells_of-All rows profile i [] within = tt
  cells_of-All rows profile i (row ∷ rest) within =
      All-append (IsCell rows profile) _ _
        (cells_of_row-All rows profile i 0 row row (Shifted-head rows i row rest within)
          (Shifted-zero row))
        (cells_of-All rows profile (suc i) rest (Shifted-suc rows i row rest within))

  -- What `_chew_choice` chooses from: the profiles of the policy that have cells, with those.
  abbrev pub IsEntry : List Row → (ChewProfile → Type 0) → ChewProfile × List Cell → Type 0
  IsEntry rows Q (profile, cells) = Q profile × (0 < length cells) × All (IsCell rows profile) cells

  with_cells-All :
      (rows : List Row) (Q : ChewProfile → Type 0) (profile : ChewProfile) (cells : List Cell)
      (rest : List (ChewProfile × List Cell))
      → Q profile
      → All (IsCell rows profile) cells
      → All (IsEntry rows Q) rest
      → All (IsEntry rows Q) (with_cells profile cells rest)
  with_cells-All rows Q profile [] rest q h hs = hs
  with_cells-All rows Q profile (c ∷ l) rest q h hs = ((q, omega arith, h), hs)

  pub eligible-All :
      (rows : List Row) (Q : ChewProfile → Type 0) (profiles : List ChewProfile)
      → All Q profiles
      → All (IsEntry rows Q) (eligible p profiles rows)
  unfolding eligible
  eligible-All rows Q [] q = tt
  eligible-All rows Q (profile ∷ l) q =
      with_cells-All rows Q profile (cells_of p profile 0 rows) (eligible p l rows) q.0
        (cells_of-All rows profile 0 rows (Shifted-zero rows)) (eligible-All rows Q l q.1)

module _ (p : Platform) where
  with_cells-nil :
      (profile : ChewProfile) (cells : List Cell) (rest : List (ChewProfile × List Cell))
      → with_cells profile cells rest ≡ []
      → (cells ≡ []) × (rest ≡ [])
  with_cells-nil profile [] rest h = (refl, h)
  with_cells-nil profile (c ∷ l) rest h = cc h

  append-nil : (l m : List Cell) → l ++ m ≡ [] → (l ≡ []) × (m ≡ [])
  append-nil [] m h = (refl, h)
  append-nil (x ∷ l) m h = cc h

  -- No value of a row, or of the rows, is changed by the profile.
  abbrev pub Untouched : ChewProfile → List Row → Type 0
  Untouched profile rows = All (All (λ v. chew_value p profile v ≡ none)) rows

  cells_of_row-nil :
      (profile : ChewProfile) (i j : ℕ) (row : Row)
      → cells_of_row p profile i j row ≡ []
      → All (λ v. chew_value p profile v ≡ none) row
  unfolding cells_of_row
  cells_of_row-nil profile i j [] h = tt
  cells_of_row-nil profile i j (v ∷ row) h = elim (Option-cases (chew_value p profile v)) [
    | inl e ↦ (e, cells_of_row-nil profile i (suc j) row (rw (e, cells_of_row) at h))
    | inr (m, e) ↦ cc (rw (e, cells_of_row) at h)
  ]

  cells_of-nil :
      (profile : ChewProfile) (i : ℕ) (rows : List Row)
      → cells_of p profile i rows ≡ []
      → Untouched profile rows
  unfolding cells_of
  cells_of-nil profile i [] h = tt
  cells_of-nil profile i (row ∷ rows) h =
      let (here, there) =
        append-nil (cells_of_row p profile i 0 row) (cells_of p profile (suc i) rows) h in
      (cells_of_row-nil profile i 0 row here, cells_of-nil profile (suc i) rows there)

  pub eligible-nil :
      (profiles : List ChewProfile) (rows : List Row)
      → eligible p profiles rows ≡ []
      → All (λ profile. Untouched profile rows) profiles
  unfolding eligible
  eligible-nil [] rows h = tt
  eligible-nil (profile ∷ l) rows h =
      let (here, there) =
        with_cells-nil profile (cells_of p profile 0 rows) (eligible p l rows) h in
      (cells_of-nil profile 0 rows here, eligible-nil l rows there)

  drop_last-ne : (c : Char) (s : String) → char_cons c s ≢ drop_last (char_cons c s)
  unfolding drop_last
  drop_last-ne c empty_text e = cc e
  drop_last-ne c (char_cons d s) e = drop_last-ne d s (cc e)

  text_inj : {s t : String} → text s ≡ text t → s ≡ t
  text_inj e = cc e

  module _ (eq_self : (x : Float) → p.is_finite x ≡ true → p.eq x x ≡ true)
      (eq_decimal_self : (x : Decimal)
        → p.is_finite_decimal x ≡ true
        → p.eq_decimal x x ≡ true) where
    pub chew_value-ne :
        (profile : ChewProfile) (v m : Value) → chew_value p profile v ≡ some m → v ≢ m
    unfolding chew_value round_decimal
    chew_value-ne utf8_truncate (text empty_text) m h e = cc h
    chew_value-ne utf8_truncate (text (char_cons c s)) m h e =
        drop_last-ne c s (text_inj (e ∙ sym (some-injective _ _ h)))
    chew_value-ne utf8_truncate v m h e = cc h
    chew_value-ne precision_loss (real x) m h e = ground (arith, h, e, eq_self x)
    chew_value-ne precision_loss (dec x) m h e = ground (arith, h, e, eq_decimal_self x)
    chew_value-ne precision_loss v m h e = cc h
    chew_value-ne nullify null m h e = cc h
    chew_value-ne nullify v m h e = cc h
