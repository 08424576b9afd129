-- ===== src/Surface/Iterated.antt =====
-- The iteration over a cursor (CursorProxy of src/dogdb/proxy/connection.py).
use mathlib.Core.Option
use dogdb.Prelude.{
  ℕ, zero, suc, ◌+◌, ◌<◌, ◌≤◌, ◌≡◌, inl, inr, refl, ap, sym, ◌∙◌, Option, none, some, List, [], ◌∷◌,
  leb, length, drop, get_elem?-lt, arith, Bool-cases,
}
use dogdb.Models.{Row}
use dogdb.Surface.{Surface, fetchone}
use dogdb.Surface.Delivery.{left_over, drop-next}
use dogdb.Surface.Cursor.{CursorProxy, cursor_fetchone, next_round, iterate}

drop_past : (n : ℕ) (l : List Row) → length l ≤ n → drop n l ≡ []
drop_past zero [] h = refl
drop_past (suc n) [] h = refl
drop_past zero (x ∷ l) h = absurd (omega (arith, h))
drop_past (suc n) (x ∷ l) h = drop_past n l (omega (arith, h))

-- `fetchone` gives nothing at the end, and otherwise the next row.
data Fetched (s : Surface) : Type 0 where
  at_end : fetchone s ≡ (none, s) → left_over s ≡ [] → Fetched s
  a_row :
      (r : Row) (t : Surface) → fetchone s ≡ (some r, t) → left_over s ≡ r ∷ left_over t → Fetched s

fetched : (s : Surface) → Fetched s
unfolding fetchone
fetched s = elim (Bool-cases (leb (length s.result.rows) s.offset)) [
  | inl h ↦ at_end (rw (fetchone, h) refl) (drop_past s.offset s.result.rows (ground (arith, h)))
  | inr h ↦
      (let (x, e) = get_elem?-lt {0} s.result.rows s.offset (ground (arith, h)) in
        a_row x (record s { offset = s.offset + 1 }) (rw (fetchone, h, e) refl)
          (sym (drop-next s.result.rows s.offset x e)))
]

-- A round, by what `fetchone` gives.
abbrev round_of : ℕ → CursorProxy → Option Row × Surface → Option (List Row × CursorProxy)
round_of fuel cur x =
    next_round (x.0, record cur { surface = x.1 }) (iterate fuel (record cur { surface = x.1 }))

-- Whatever was fetched before, `for row in cursor` ends after one round more than there are rows left;
-- it goes through these rows, in order, and leaves a cursor that gives no row.
pub iterate_complete :
    (fuel : ℕ) (cur : CursorProxy)
    → length (left_over cur.surface) < fuel
    → (end : CursorProxy) × (iterate fuel cur ≡ some (left_over cur.surface, end))
      × ((cursor_fetchone end).0 ≡ none)
unfolding iterate cursor_fetchone next_round
iterate_complete zero cur h = absurd (omega (arith, h))
iterate_complete (suc fuel) cur h = elim (fetched cur.surface) [
  | at_end e l ↦
      (cur, ap (round_of fuel cur) e ∙ ap (λ rows. some (rows, cur)) (sym l), ap (λ x. x.0) e)
  | a_row r t e l ↦
      (let (end, rows, stopped) =
          iterate_complete fuel (record cur { surface = t }) (omega (arith, h, ap length l)) in
        (
          end,
          ap (round_of fuel cur) e
              ∙ ap (Option.map (λ x. (r ∷ x.0, x.1))) rows
              ∙ ap (λ rows. some (rows, end)) (sym l),
          stopped,
        ))
]
