-- ===== src/Faults/Chewed.antt =====
-- CHEW (core/faults.py of src/dogdb): the value that it changes.
use dogdb.Prelude.{
  ℕ, ◌≡◌, ◌≢◌, refl, ap, true, Option, none, some, List, [], ◌∷◌, get_elem?, set, All,
  get_elem?-All, All-get, arith,
}
use dogdb.Models.{LogicalResult, Decision, Value, Row, chew, Float, Decimal}
use dogdb.Platform.{Platform}
use dogdb.Policy.{ChewProfile, FaultPolicy, FaultTaxonomy, taxonomy, taxonomy_of}
use dogdb.Session.{Config}
use dogdb.Exec.Gives.{Gives, Gives-pure, Gives-bind, Gives-weaken}
use dogdb.Faults.Rows.{Cell, chew_value, eligible, set_cell}
use dogdb.Faults.Inject.{or_index_error}
use dogdb.Faults.OnResult.{choose, chew_choice, inject_chew}
use dogdb.Faults.Shape.{Returns-event, Gives-derived_index, Gives-index_in}
use dogdb.Faults.Cells.{IsCell, IsEntry, eligible-All, Untouched, eligible-nil, chew_value-ne}

set_cell-some :
    (rows : List Row) (cell : Cell) (row : Row) (v : Value)
    → get_elem? rows cell.row_index ≡ some row
    → get_elem? row cell.column_index ≡ some v
    → set_cell rows cell ≡ some (set rows cell.row_index (set row cell.column_index cell.mutated))
unfolding set_cell
set_cell-some rows cell row v e f = rw (e, f, set_cell) refl

taxonomy_of-chew : (policy : FaultPolicy) → (t : FaultTaxonomy) × (taxonomy_of policy chew ≡ some t)
unfolding taxonomy_of taxonomy
taxonomy_of-chew policy = (_, refl)

module _ (p : Platform) (c : Config) (d : Decision) (result : LogicalResult) where
  abbrev profiles : List ChewProfile
  profiles = c.policy.chew_profiles

  abbrev InPolicy : ChewProfile → Type 0
  InPolicy profile = (n : ℕ) × (get_elem? profiles n ≡ some profile)

  -- A cell and a profile of the policy that changes it, if there is one at all.
  abbrev Chooses : List (ChewProfile × List Cell) → Option (ChewProfile × Cell) → Type 0
  Chooses entries none = entries ≡ []
  Chooses entries (some (profile, cell)) = InPolicy profile × IsCell p result.rows profile cell

  Gives-choose :
      (entries : List (ChewProfile × List Cell))
      → All (IsEntry p result.rows InPolicy) entries
      → Gives (choose p c d entries) (Chooses entries)
  unfolding choose
  Gives-choose [] h = Gives-pure none refl
  Gives-choose (e ∷ l) h = Gives-bind _ _ (Gives-derived_index p d _ _ (omega arith)) (λ i within.
      Gives-bind _ _ (Gives-index_in (e ∷ l) i within) (λ (profile, cells) at.
        let (q, some_cell, good) =
          All-get (IsEntry p result.rows InPolicy) (e ∷ l) i (profile, cells) h at in
        Gives-bind _ _ (Gives-derived_index p d _ _ some_cell) (λ j inside.
          Gives-bind _ _ (Gives-index_in cells j inside) (λ cell there.
            Gives-pure _ (q, All-get (IsCell p result.rows profile) cells j cell good there)))))

module _ (p : Platform) (c : Config) (d : Decision) (result : LogicalResult) where
  -- In the result the value of the cell is the one that the cell has for it, which the profile, one
  -- of the policy, makes of the value there, and which is another.
  abbrev pub Corrupts : ChewProfile → Cell → LogicalResult → Type 0
  Corrupts profile cell r =
      (n : ℕ) × (row : Row) × (v : Value) × (get_elem? c.policy.chew_profiles n ≡ some profile)
      × (get_elem? result.rows cell.row_index ≡ some row)
      × (get_elem? row cell.column_index ≡ some v)
      × (chew_value p profile v ≡ some cell.mutated)
      × (v ≢ cell.mutated)
      × (r ≡ record result {
        rows = set result.rows cell.row_index (set row cell.column_index cell.mutated);
      })

  abbrev pub Chews : Option (ChewProfile × Cell) → Type 0
  Chews none = All (λ profile. Untouched p profile result.rows) c.policy.chew_profiles
  Chews (some (profile, cell)) =
      Gives (inject_chew p c d result profile cell) (Corrupts profile cell)

  module _ (eq_self : (x : Float) → p.is_finite x ≡ true → p.eq x x ≡ true)
      (eq_decimal_self : (x : Decimal)
        → p.is_finite_decimal x ≡ true
        → p.eq_decimal x x ≡ true) where
    Chews-chosen :
        (profile : ChewProfile) (cell : Cell)
        → InPolicy p c d result profile
        → IsCell p result.rows profile cell
        → Gives (inject_chew p c d result profile cell) (Corrupts profile cell)
    unfolding inject_chew or_index_error
    Chews-chosen profile cell (n, listed) (row, v, at, there, makes) =
        rw (set_cell-some result.rows cell row v at there) (
          Gives-bind _ _
            (Gives-pure
              {P = λ l. l ≡ set result.rows cell.row_index (set row cell.column_index cell.mutated)}
              _ refl)
            (λ l same.
              Gives-bind _ _ (Returns-event p c d chew _ _ _ (taxonomy_of-chew c.policy).1) (λ _ _.
                Gives-pure _ (
                  n,
                  row,
                  v,
                  listed,
                  at,
                  there,
                  makes,
                  chew_value-ne p eq_self eq_decimal_self profile v cell.mutated makes,
                  ap (λ z. record result { rows = z }) same,
                ))))

    Chews-chosen_or_none :
        (o : Option (ChewProfile × Cell))
        → Chooses p c d result (eligible p c.policy.chew_profiles result.rows) o
        → Chews o
    Chews-chosen_or_none none h = eligible-nil p c.policy.chew_profiles result.rows h
    Chews-chosen_or_none (some (profile, cell)) (q, good) = Chews-chosen profile cell q good

    -- CHEW, whatever the rows, if a finite number equals itself: from every state it chooses a
    -- profile and a cell, or none. If none, then no profile of the policy changes any value of the
    -- rows. If one, then from every state CHEW returns the result with the value of the chosen cell
    -- replaced by the value chosen for it, which the chosen profile, one of the policy, makes of what
    -- stood there, and which is another; everything else is as it was.
    pub chew_choice-Chews : Gives (chew_choice p c d result) Chews
    unfolding chew_choice
    chew_choice-Chews =
        Gives-weaken
          (Gives-choose p c d result (eligible p c.policy.chew_profiles result.rows) (
            eligible-All p result.rows (InPolicy p c d result) c.policy.chew_profiles
              (get_elem?-All _ _ (λ n profile e. (n, e)))))
          Chews-chosen_or_none
