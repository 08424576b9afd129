-- ===== src/Faults/Count.antt =====
-- The number of rows that WRONG_COUNT reports (core/faults.py of src/dogdb).
use dogdb.Prelude.{
  ℕ, zero, suc, ◌+◌, ◌-◌, ◌%◌, ◌<◌, ◌≡◌, ◌≢◌, refl, ap, Bool, true, false, ◌||◌, List, [], ◌∷◌,
  take, length, ◌==◌, leb, if◌then◌else◌, arith, Bool-cases, inl, inr,
}
use Prim.Native.String.{◌++◌}
use dogdb.Prelude.Int.{pos, sub_ℕ, max_zero}
use dogdb.Models.{LogicalResult, Decision, wrong_count}
use dogdb.Platform.{Platform, IsDigest, derive, from_bytes}
use dogdb.Policy.{taxonomy_of}
use dogdb.Session.{Config}
use dogdb.Exec.Gives.{Gives, Gives-pure, Gives-bind}
use dogdb.Faults.Inject.{reported_count, inject_wrong_count}
use dogdb.Faults.Shape.{Returns-event}

suc_not_zero : (a : ℕ) → (suc a == 0) ≡ false
suc_not_zero a = ground arith

-- A step of at least one away from the count is not the count.
reported-off :
    (a m : ℕ) (up : Bool)
    → (n : ℕ) × (max_zero (if (a == 0 || up) then pos (a + (m + 1)) else sub_ℕ a (m + 1)) ≡ pos n)
      × (n ≢ a)
reported-off zero m true = (0 + (m + 1), refl, λ e. omega arith)
reported-off zero m false = (0 + (m + 1), refl, λ e. omega arith)
reported-off (suc a) m true = (suc a + (m + 1), rw (suc_not_zero a) refl, λ e. omega arith)
reported-off (suc a) m false = elim (Bool-cases (leb (m + 1) (suc a))) [
  | inl h ↦ (suc a - (m + 1), rw (suc_not_zero a, h) refl, λ e. omega arith)
  | inr h ↦ (0, rw (suc_not_zero a, h) refl, λ e. omega arith)
]

reported_count-off :
    (max_delta a : ℕ) (bytes : List ℕ)
    → 0 < length bytes
    → (n : ℕ) × (reported_count max_delta a bytes ≡ pos n) × (n ≢ a)
unfolding reported_count
reported_count-off max_delta a [] h = absurd (omega arith)
reported_count-off max_delta a (b ∷ bytes) h =
    reported-off a (from_bytes 0 (take 8 bytes) % max_delta) (b % 2 == 0)

-- The row count is not the number of the rows, and the rest is as it was.
abbrev pub Misreports : LogicalResult → LogicalResult → Type 0
Misreports result r = (n : ℕ) × (n ≢ length result.rows) × (r ≡ record result { rowcount = pos n })

-- WRONG_COUNT changes only the row count of the result, and what it reports is never the number of
-- rows.
pub inject_wrong_count-off :
    (p : Platform) (c : Config) (g : IsDigest p) (d : Decision) (result : LogicalResult)
    → Gives (inject_wrong_count p c d result) (Misreports result)
unfolding inject_wrong_count derive taxonomy_of
inject_wrong_count-off p c g d result =
    let (n, e, off) =
      reported_count-off c.policy.wrong_count_max_delta (length result.rows)
        (derive p d.decision_key "count:WRONG_COUNT")
        (omega (arith, g.size (d.decision_key ++ (":" ++ "count:WRONG_COUNT")))) in
    Gives-bind _ _ (Returns-event p c d wrong_count "rowcount_misreported" _ _ refl)
      (λ _ _. Gives-pure _ (n, off, ap (λ z. record result { rowcount = z }) e))
