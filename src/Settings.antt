-- ===== src/Settings.antt =====
-- The settings that a caller passes to `wrap` (core/validation.py and the parsers of core/mood.py and
-- core/auto_return.py of src/dogdb): Python values of any type.
pub mod Returns
pub mod Moods
pub mod Usable
pub mod Policies
pub mod Probable
use Prim.Native.String.{compare, ◌++◌}
use text.Mathlib.Text.{is_le}
use mathlib.Core.Option.{some-injective}
use dogdb.Prelude.{
  ◌⊎◌, inl, inr, ℕ, zero, suc, String, Bool, true, false, ◌||◌, Option, none, some, List, [], ◌∷◌,
  str_eq, any, length, ◌≤◌, if◌then◌else◌, ◌<◌, refl, ap, Option-cases, Bool-cases, ◌≡◌, arith,
}
use dogdb.Prelude.Int.{ℤ, pos, negsuc}
use dogdb.Models.{Float, value_error}
use dogdb.Exec.{Result, ok, err}
use dogdb.Attempt.{Makes}

-- A mapping has text keys, each of them once. A `bool` is no `number` here, though Python has it as
-- a subclass of `int`.
mutual
  pub data Setting : Type 0 where
    nothing : Setting
    flag : Bool → Setting
    number : ℤ → Setting
    real : Float → Setting
    word : String → Setting
    mapping : Entries → Setting
    sequence : Items → Setting

  pub data Entries : Type 0 where
    no_entries : Entries
    entry : String → Setting → Entries → Entries

  pub data Items : Type 0 where
    no_items : Items
    item : Setting → Items → Items

-- require_positive_int
unfoldable pub require_positive_int : Setting → String → Result ℕ
require_positive_int (number (pos (suc n))) name = ok (suc n)
require_positive_int _ name = err (value_error (name ++ " must be a positive integer"))

pub positive_of_required :
    (v : Setting) (name : String) {n : ℕ} → require_positive_int v name ≡ ok n → 0 < n
unfolding require_positive_int
positive_of_required (number (pos (suc n))) name h = ground (arith, h)
positive_of_required v name h = cc h

-- setting.get(key, default)
abbrev pub get_or : String → Setting → Entries → Setting
get_or key default no_entries = default
get_or key default (entry k v rest) = if str_eq k key then v else get_or key default rest

abbrev pub keys : Entries → List String
keys no_entries = []
keys (entry k v rest) = k ∷ keys rest

-- set(names) - known, in the order of the names
unfoldable pub unknown_names : (String → Bool) → List String → List String
unknown_names known [] = []
unknown_names known (k ∷ l) = if known k then unknown_names known l else k ∷ unknown_names known l

-- set(names): each name once
unfoldable pub distinct : List String → List String
distinct [] = []
distinct (s ∷ l) = if any (str_eq s) l then distinct l else s ∷ distinct l

-- sorted(names)
insert_name : String → List String → List String
insert_name s [] = s ∷ []
insert_name s (t ∷ l) = if is_le (compare s t) then s ∷ t ∷ l else t ∷ insert_name s l

sort_names : List String → List String
unfolding insert_name
sort_names [] = []
sort_names (s ∷ l) = insert_name s (sort_names l)

-- ", ".join(names)
join_comma : List String → String
join_comma [] = ""
join_comma (s ∷ []) = s
join_comma (s ∷ t ∷ l) = s ++ (", " ++ join_comma (t ∷ l))

-- ", ".join(sorted(names))
unfoldable pub listed : List String → String
unfolding sort_names join_comma
listed names = join_comma (sort_names names)

-- `if unknown: raise ValueError(…)`
unfoldable pub refuse_names : String → List String → Result (Unit {0})
unfolding listed
refuse_names message [] = ok tt
refuse_names message (s ∷ l) = err (value_error (message ++ listed (s ∷ l)))

-- The names that are not known are refused.
unfoldable pub refuse_unknown : (String → Bool) → String → List String → Result (Unit {0})
unfolding unknown_names refuse_names distinct
refuse_unknown known message names = refuse_names message (unknown_names known (distinct names))

-- key in {"…", …}
abbrev pub one_of : List String → String → Bool
one_of l k = any (str_eq k) l

pub required-IsPositive :
    (v : Setting) (name : String) → Makes (λ n. 0 < n) (require_positive_int v name)
unfolding require_positive_int Makes
required-IsPositive (number (pos (suc n))) name = omega arith
required-IsPositive v name = tt

-- What a table with one more entry finds.
pub found_in_if {ℓ} :
    {A : Type ℓ} (test : Bool) (a : A) (o : Option A) {x : A}
    → (if test then some a else o) ≡ some x
    → (a ≡ x) ⊎ (o ≡ some x)
found_in_if true a o {x} h = inl (some-injective a x h)
found_in_if false a o h = inr h

refuse_names_lem :
    (message : String) (l : List String) → Makes (λ u. l ≡ []) (refuse_names message l)
unfolding refuse_names Makes
refuse_names_lem message [] = refl
refuse_names_lem message (s ∷ l) = tt

pub refuse_unknown_lem :
    (known : String → Bool) (message : String) (names : List String)
    → Makes (λ u. unknown_names known (distinct names) ≡ []) (refuse_unknown known message names)
unfolding refuse_unknown
refuse_unknown_lem known message names =
    refuse_names_lem message (unknown_names known (distinct names))

length-distinct : (l : List String) → length (distinct l) ≤ length l
unfolding distinct
length-distinct [] = omega arith
length-distinct (s ∷ l) = elim (Bool-cases (any (str_eq s) l)) [
  | inl e ↦ rw e (omega (arith, length-distinct l))
  | inr e ↦ rw e (omega (arith, length-distinct l))
]

-- A list that loses nothing has no name twice.
pub distinct-id : (l : List String) → length (distinct l) ≡ length l → distinct l ≡ l
unfolding distinct
distinct-id [] h = refl
distinct-id (s ∷ l) h = elim (Bool-cases (any (str_eq s) l)) [
  | inl e ↦ absurd (ground (arith, h, e, length-distinct l))
  | inr e ↦ rw e (ap (◌∷◌ s) (distinct-id l (ground (arith, h, e))))
]
