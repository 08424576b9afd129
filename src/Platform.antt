-- ===== src/Platform.antt =====
-- What the library takes from elsewhere: SHA-256, the arithmetic of floats and decimals, the
-- comparison of rows. And core/decision.py of src/dogdb: the derivations from a decision key.
pub mod Ids
use Prim.Native.Char.{Char}
use Prim.Native.String.{◌++◌}
use dogdb.Prelude.{
  length, All, ◌<◌, ◌≡◌, ℕ, ◌+◌, ◌*◌, ◌%◌, String, Bool, Option, List, [], ◌∷◌, take, ◌==◌,
  if◌then◌else◌,
}
use dogdb.Prelude.Int.{ℤ}
use dogdb.Prelude.Show.{show, hex}
use dogdb.Models.{Float, Decimal, Row, Phase, phase_name, Decision, zero_division}
use dogdb.Exec.{Exec, pure, raise}

pub record Platform : Type 0 where
  -- hashlib.sha256(s.encode("utf-8")).digest(), as the list of its bytes
  pub sha256 : String → List ℕ
  -- hmac.new(key, s.encode("utf-8"), sha256).hexdigest()
  pub hmac : List ℕ → String → String
  -- c.lower() of a character, and s.lower() of a text
  pub lower_char : Char → List Char
  pub lower_text : String → String
  -- s.upper() and s.strip()
  pub upper_text : String → String
  pub strip_text : String → String
  -- the floats: a * b, a < b, a ≤ b, a == b, math.isfinite(a), float(round(a)), 0.0 and 1.0
  pub mul : Float → Float → Float
  pub lt : Float → Float → Bool
  pub le : Float → Float → Bool
  pub eq : Float → Float → Bool
  pub is_finite : Float → Bool
  pub round : Float → Float
  pub zero_float : Float
  pub one_float : Float
  -- the literals 3.0 and 0.5, and float(n) of an integer (none: `OverflowError`)
  pub three_float : Float
  pub half_float : Float
  pub of_int : ℤ → Option Float
  -- n / 2**64, and int(a * n)
  pub unit : ℕ → Float
  pub scale : Float → ℕ → ℕ
  -- a.is_finite(), a.quantize(Decimal(1)) (none: `InvalidOperation`), a == b
  pub is_finite_decimal : Decimal → Bool
  pub quantize_one : Decimal → Option Decimal
  pub eq_decimal : Decimal → Decimal → Bool
  -- the comparison of two rows
  pub row_eq : Row → Row → Bool

-- A SHA-256 digest has 32 bytes.
pub record IsDigest (p : Platform) : Type 0 where
  pub size : (s : String) → length (p.sha256 s) ≡ 32
  pub bytes : (s : String) → All (λ b. b < 256) (p.sha256 s)

-- int.from_bytes(b, "big"), from the left
unfoldable pub from_bytes : ℕ → List ℕ → ℕ
from_bytes acc [] = acc
from_bytes acc (b ∷ l) = from_bytes (acc * 256 + b) l

module _ (p : Platform) where
  -- DecisionEngine.derive
  unfoldable pub derive : String → String → List ℕ
  derive key tag = p.sha256 (key ++ (":" ++ tag))

  -- int.from_bytes(digest[:8], "big")
  unfoldable pub derived_number : String → String → ℕ
  unfolding derive from_bytes
  derived_number key tag = from_bytes 0 (take 8 (derive key tag))

  -- DecisionEngine.unit_interval
  unfoldable pub unit_interval : String → String → Float
  unfolding derived_number
  unit_interval key tag = p.unit (derived_number key tag)

  -- DecisionEngine.deterministic_id: bytes.hex() has two digits to a byte
  unfoldable pub deterministic_id : String → String → String
  unfolding derive hex
  deterministic_id key tag = hex (take 16 (derive key tag))

  -- FaultEngine._derived_index
  unfoldable pub derived_index : {S : Type 0} → Decision → String → ℕ → Exec S ℕ
  derived_index d tag size =
      if size == 0 then raise zero_division else pure (derived_number d.decision_key tag % size)

abbrev pub policy_version : String
policy_version =
    "dogdb-v4:normalize=trim+collapse-whitespace+lowercase-outside-literals+strip-comments"

-- "\0".join(parts)
unfoldable pub join_zero : List String → String
join_zero [] = ""
join_zero (s ∷ []) = s
join_zero (s ∷ t ∷ l) = s ++ ("\0" ++ join_zero (t ∷ l))

module _ (p : Platform) where
  -- DecisionEngine.decide
  unfoldable pub decide : String → String → Bool → String → String → ℕ → Phase → Decision
  unfolding join_zero show phase_name hex
  decide seed session_id include_params template parameter occurrence phase = record {
    template_fingerprint = template;
    parameter_fingerprint = parameter;
    occurrence = occurrence;
    phase = phase;
    decision_key =
        "sha256:"
        ++ hex (
            p.sha256 (
              join_zero (
                policy_version
                ∷ seed
                ∷ session_id
                ∷ template
                ∷ show occurrence
                ∷ phase_name phase
                ∷ (if include_params then parameter ∷ [] else []))));
  }
