-- ===== src/Settings/Probable.antt =====
-- The policies that FaultPolicy.__post_init__ (core/faults.py of src/dogdb) makes.
use mathlib.Core.Path.{subst}
use text.Mathlib.TextEquality.{eq_iff}
use dogdb.Prelude.{
  zero, suc, ◌<◌, ◌≡◌, refl, ap, String, true, false, not, ◌&&◌, some, List, [], ◌∷◌, ◌==◌, str_eq,
  map, length, length-map, arith, Option-cases, inl, inr,
}
use dogdb.Prelude.Dict.{Dict, lookup}
use dogdb.Prelude.Int.{pos}
use dogdb.Models.{Float, Fault, fault_name}
use dogdb.Platform.{Platform}
use dogdb.Policy.{ChewProfile, profile_name, FaultPolicy}
use dogdb.Exec.{ok}
use dogdb.Attempt.{refuse, Makes, Makes->>=, Makes->>=_any, Makes-if, Makes-ok, Makes-refuse}
use dogdb.Settings.{
  Setting, flag, number, real, require_positive_int, required-IsPositive, refuse_unknown,
  refuse_unknown_lem, distinct, distinct-id, unknown_names, found_in_if,
}
use dogdb.Settings.Policies.{
  PolicySettings, is_known_fault, profile_named, is_known_profile, known_profiles, parse_profiles,
  parse_mode, parse_probability, parse_probabilities, probability_in, make_policy,
}

abbrev pub IsProbability : Platform → Float → Type 0
IsProbability p x = (p.le p.zero_float x ≡ true) × (p.le x p.one_float ≡ true)

-- The floats 0.0 and 1.0 are probabilities.
pub record HasUnit (p : Platform) : Type 0 where
  pub zero : IsProbability p p.zero_float
  pub one : IsProbability p p.one_float

-- The profiles are some, and none is listed twice.
abbrev pub IsChoice : List ChewProfile → Type 0
IsChoice l = (0 < length l) × (distinct (map profile_name l) ≡ map profile_name l)

pub record IsPolicy (p : Platform) (policy : FaultPolicy) : Type 0 where
  pub probable : (f : Fault) → IsProbability p (policy.probabilities f)
  pub choice : IsChoice policy.chew_profiles
  pub delta : 0 < policy.wrong_count_max_delta
  pub delay : 0 < policy.sloth_max_delay_ms

profile_name-named : (s : String) (c : ChewProfile) → profile_named s ≡ some c → profile_name c ≡ s
unfolding profile_named profile_name
profile_name-named s c e =
    ground (arith, e, eq_iff s "utf8_truncate", eq_iff s "precision_loss", eq_iff s "nullify")

profile_name-known :
    (l : List String)
    → unknown_names is_known_profile l ≡ []
    → map profile_name (known_profiles l) ≡ l
unfolding unknown_names known_profiles
profile_name-known [] h = refl
profile_name-known (s ∷ l) h = elim (Option-cases (profile_named s)) [
  | inl e ↦ absurd (ground (arith, h, e))
  | inr (c, e) ↦
      rw (known_profiles, e, profile_name-named s c e, profile_name-known l (ground (arith, h, e)))
        refl
]

module _ (p : Platform) where
  abbrev AreProbable : Dict Float → Type 0
  AreProbable l = (k : String) (x : Float) → lookup k l ≡ some x → IsProbability p x

  parse_probability-IsProbability :
      HasUnit p
      → (name : String) (v : Setting) → Makes (IsProbability p) (parse_probability p name v)
  unfolding parse_probability Makes
  parse_probability-IsProbability u name (flag false) = u.zero
  parse_probability-IsProbability u name (flag true) = u.one
  parse_probability-IsProbability u name (number (pos zero)) = u.zero
  parse_probability-IsProbability u name (number (pos (suc zero))) = u.one
  parse_probability-IsProbability u name (number z) = tt
  parse_probability-IsProbability u name (real x) =
      Makes-if (IsProbability p) (not (p.le p.zero_float x && p.le x p.one_float)) _ x
        (λ passed. (ground (arith, passed), ground (arith, passed)))
  parse_probability-IsProbability u name v = tt

  parse_probabilities-AreProbable :
      HasUnit p → (d : Dict Setting) → Makes AreProbable (parse_probabilities p d)
  unfolding parse_probabilities Makes
  parse_probabilities-AreProbable u [] = λ k x e. cc e
  parse_probabilities-AreProbable u ((k, v) ∷ rest) =
      Makes->>= AreProbable (IsProbability p) (parse_probability p k v) _
        (parse_probability-IsProbability u k v)
        (λ x wx.
          Makes->>= AreProbable AreProbable (parse_probabilities p rest) _
            (parse_probabilities-AreProbable u rest)
            (λ l wl j y e. elim (found_in_if (str_eq k j) x (lookup j l) e) [
              | inl same ↦ subst (IsProbability p) same wx
              | inr old ↦ wl j y old
            ]))

  probability_in-IsProbability :
      HasUnit p
      → (l : Dict Float) → AreProbable l
      → (f : Fault) → IsProbability p (probability_in p l f)
  unfolding probability_in
  probability_in-IsProbability u l w f = elim (Option-cases (lookup (fault_name f) l)) [
    | inl e ↦ rw (probability_in, e) u.zero
    | inr (x, e) ↦ rw (probability_in, e) (w (fault_name f) x e)
  ]

-- The names pass the three checks.
chosen :
    (names : List String)
    → unknown_names is_known_profile (distinct names) ≡ []
    → (length names == 0) ≡ false
    → not (length (distinct names) == length names) ≡ false
    → IsChoice (known_profiles names)
chosen names known nonempty same =
    let once = distinct-id names (ground (arith, same)) in
    let named =
      profile_name-known names (subst (λ l. unknown_names is_known_profile l ≡ []) once known) in
    (
      ground (arith, nonempty, ap length named, length-map profile_name (known_profiles names)),
      rw named once,
    )

parse_profiles-IsChoice : (names : List String) → Makes IsChoice (parse_profiles names)
unfolding parse_profiles Makes
parse_profiles-IsChoice names =
    Makes->>= IsChoice _ (refuse_unknown is_known_profile _ names) _
      (refuse_unknown_lem is_known_profile _ names)
      (λ u known.
        Makes->>= IsChoice _ (refuse (length names == 0) _) _ (Makes-refuse _ _) (λ u nonempty.
          Makes->>= IsChoice _ (refuse (not (length (distinct names) == length names)) _) _
            (Makes-refuse _ _) (λ u same. chosen names known nonempty same)))

pub make_policy-Makes :
    (p : Platform) → HasUnit p → (s : PolicySettings) → Makes (IsPolicy p) (make_policy p s)
unfolding make_policy Makes
make_policy-Makes p u s = Makes->>=_any (IsPolicy p) (refuse_unknown is_known_fault _ _) _ (λ v.
    Makes->>= (IsPolicy p) (AreProbable p) (parse_probabilities p _) _
      (parse_probabilities-AreProbable p u _)
      (λ l wl. Makes->>=_any (IsPolicy p) (parse_mode _ _ s.stash_mode) _ (λ stash.
        Makes->>=_any (IsPolicy p) (parse_mode _ _ s.tail_chase_mode) _ (λ tail_chase.
          Makes->>=_any (IsPolicy p) (parse_mode _ _ s.on_max_rows) _ (λ on_max_rows.
            Makes->>= (IsPolicy p) IsChoice (parse_profiles s.chew_profiles) _
              (parse_profiles-IsChoice s.chew_profiles)
              (λ profiles choice.
                Makes->>= (IsPolicy p) (λ n. 0 < n) (require_positive_int s.wrong_count_max_delta _)
                  _ (required-IsPositive _ _)
                  (λ delta positive.
                    Makes->>= (IsPolicy p) (λ n. 0 < n)
                      (require_positive_int s.sloth_max_delay_ms _) _ (required-IsPositive _ _)
                      (λ delay positive'. record {
                        probable = probability_in-IsProbability p u l wl;
                        choice = choice;
                        delta = positive;
                        delay = positive';
                      }))))))))

-- If 0.0 and 1.0 are within the range of a probability, then whatever the settings, a policy that is
-- made of them has for every fault a probability from 0.0 to 1.0, at least one CHEW profile and none
-- twice, and a positive bound for the change of a count and for a delay.
pub make_policy-IsPolicy :
    (p : Platform)
    → HasUnit p
    → (s : PolicySettings) (policy : FaultPolicy) → make_policy p s ≡ ok policy
    → IsPolicy p policy
make_policy-IsPolicy p u s policy e =
    Makes-ok (IsPolicy p) (make_policy p s) (make_policy-Makes p u s) e
