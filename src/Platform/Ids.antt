-- ===== src/Platform/Ids.antt =====
-- The ids of core/decision.py in src/dogdb are never the empty text.
use text.Mathlib.TextLemmas.{append-eq-nil_iff}
use dogdb.Prelude.{
  ℕ, suc, ◌<◌, ◌/◌, ◌≡◌, String, false, List, [], ◌∷◌, str_eq, eq_iff, arith, length, All, take,
  Bool-cases, inl, inr,
}
use dogdb.Prelude.Show.{hex, digit, digits, digit_named}
use dogdb.Platform.{Platform, IsDigest, derive, deterministic_id}

-- The hexadecimal text of a digest, or of a prefix of it, is not empty.
hex_named :
    (n : ℕ) (l : List ℕ)
    → 0 < length l
    → All (λ b. b < 256) l
    → str_eq (hex (take (suc n) l)) "" ≡ false
unfolding hex
hex_named n [] h k = absurd (omega arith)
hex_named n (b ∷ l) h k = elim (Bool-cases (str_eq (hex (b ∷ take n l)) "")) [
  | inr ne ↦ ne
  | inl empty ↦
      let nil : digit (b / 16) digits ≡ "" = (append-eq-nil_iff.0 ((eq_iff _ _).0 empty)).0 in
      ground (
        arith,
        digit_named (b / 16) (omega (arith, k.0)),
        (eq_iff (digit (b / 16) digits) "").1 nil,
      )
]

pub deterministic_id_named :
    (p : Platform)
    → IsDigest p
    → (key tag : String) → str_eq (deterministic_id p key tag) "" ≡ false
unfolding deterministic_id derive
deterministic_id_named p g key tag = hex_named 15 _ (omega (arith, g.size _)) (g.bytes _)
