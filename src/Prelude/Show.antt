-- ===== src/Prelude/Show.antt =====
-- Numbers as text: `str(n)` of a number, and `bytes.hex()`.
use Prim.Native.Nat.{ℕ, zero, suc, ◌/◌, ◌%◌}
use Prim.Native.String.{String, ◌++◌}
use mathlib.Core.List.{List, [], ◌∷◌}
use Prim.Native.Nat.{◌<◌}
use mathlib.Core.Bool.{Bool, true, false, not, ◌&&◌}
use mathlib.Core.Path.{◌≡◌, refl}
use mathlib.Core.Logic.{inl, inr}
use native.Mathlib.Omega.{arith}
use dogdb.Prelude.Tests.{ltb, if◌then◌else◌, str_eq, ◌==◌, ==_iff, Bool-cases}

-- A digit below 16.
unfoldable pub digit : ℕ → List String → String
digit n [] = ""
digit zero (s ∷ l) = s
digit (suc n) (s ∷ l) = digit n l

abbrev pub digits : List String
digits =
    "0" ∷ "1" ∷ "2" ∷ "3" ∷ "4" ∷ "5" ∷ "6" ∷ "7" ∷ "8" ∷ "9" ∷ "a" ∷ "b" ∷ "c" ∷ "d" ∷ "e" ∷ "f"
    ∷ []

show_fuel : ℕ → ℕ → String
show_fuel zero n = ""
show_fuel (suc f) n =
    let rest = show_fuel f (n / 10) in
    if ltb n 10 then digit n digits else rest ++ digit (n % 10) digits

-- str(n); a number has at most as many digits as its successor has units.
unfoldable pub show : ℕ → String
unfolding digit show_fuel
show n = show_fuel (suc n) n

-- bytes.hex()
unfoldable pub hex : List ℕ → String
unfolding digit
hex [] = ""
hex (b ∷ l) = digit (b / 16) digits ++ (digit (b % 16) digits ++ hex l)

all_named : ℕ → Bool
all_named zero = true
all_named (suc n) = not (str_eq (digit n digits) "") && all_named n

all_named_sound : (k n : ℕ) → all_named k ≡ true → n < k → str_eq (digit n digits) "" ≡ false
unfolding all_named
all_named_sound zero n h lt = absurd (omega arith)
all_named_sound (suc k) n h lt = elim (Bool-cases (n == k)) [
  | inl same ↦ rw ((==_iff n k).0 same) (ground arith)
  | inr ne ↦ all_named_sound k n (ground arith) (ground arith)
]

-- No digit is the empty text.
pub digit_named : (n : ℕ) → n < 16 → str_eq (digit n digits) "" ≡ false
unfolding all_named digit
digit_named n lt = all_named_sound 16 n refl lt
