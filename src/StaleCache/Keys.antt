-- ===== src/StaleCache/Keys.antt =====
-- The occurrences by key and the ordered entries of core/stale_cache.py in src/dogdb: what a write
-- changes, and what it leaves.
use mathlib.Core.Path.{subst}
use dogdb.Prelude.{
  ℕ, ◌≡◌, refl, sym, ap, ◌∙◌, String, true, false, Option, none, some, List, [], ◌∷◌, eq_iff,
  if◌then◌else◌, arith, Bool-cases, inl, inr,
}
use dogdb.StaleCache.{
  CacheKey, StaleEntry, option_eq, key_eq, occurrences_at, keep_nonempty, put_occurrences,
}

option_eq_sound : (a b : Option String) → option_eq a b ≡ true → a ≡ b
option_eq_sound none none h = refl
option_eq_sound (some a) (some b) h = ap some ((eq_iff a b).0 h)
option_eq_sound none (some b) h = cc
option_eq_sound (some a) none h = cc

option_eq_refl : (o : Option String) → option_eq o o ≡ true
option_eq_refl none = refl
option_eq_refl (some a) = (eq_iff a a).1 refl

pub key_eq_sound : (a b : CacheKey) → key_eq a b ≡ true → a ≡ b
key_eq_sound a b h =
    ground (arith, h, eq_iff a.template b.template, option_eq_sound a.parameter b.parameter)

pub key_eq_refl : (k : CacheKey) → key_eq k k ≡ true
key_eq_refl k = ground (arith, eq_iff k.template k.template, option_eq_refl k.parameter)

-- The entries of a key, in order, and the numbers of their occurrences.
abbrev pub at_key : CacheKey → List StaleEntry → List StaleEntry
at_key k [] = []
at_key k (e ∷ l) = if key_eq e.key k then e ∷ at_key k l else at_key k l

abbrev pub numbers : CacheKey → List StaleEntry → List ℕ
numbers k [] = []
numbers k (e ∷ l) = if key_eq e.key k then e.occurrence ∷ numbers k l else numbers k l

-- No key stands twice among the occurrences.
abbrev pub IsClean : List (CacheKey × List ℕ) → Type 0
IsClean [] = Unit
IsClean ((k, ns) ∷ m) = (occurrences_at k m ≡ []) × IsClean m

-- A key that is equal to one that differs from a third differs from it too.
key_eq_other : (i j k : CacheKey) → key_eq i j ≡ true → key_eq i k ≡ false → key_eq k j ≡ false
key_eq_other i j k e h = elim (Bool-cases (key_eq k j)) [
  | inr other ↦ other
  | inl same ↦
      absurd (ground (arith, h, subst (λ x. key_eq i x ≡ true) (sym (key_eq_sound k j same)) e))
]

occurrences-keep_nonempty :
    (k j : CacheKey) (ns : List ℕ) (m : List (CacheKey × List ℕ))
    → occurrences_at k m ≡ []
    → occurrences_at j (keep_nonempty k ns m) ≡ (if key_eq k j then ns else occurrences_at j m)
unfolding occurrences_at
occurrences-keep_nonempty k j (n ∷ ns) m h = refl
occurrences-keep_nonempty k j [] m h = elim (Bool-cases (key_eq k j)) [
  | inl e ↦ rw e (subst (λ x. occurrences_at x m ≡ []) (key_eq_sound k j e) h)
  | inr e ↦ rw e refl
]

-- What is found under `j` behind the entry of `i`, once `ns` is written under `k`.
abbrev written :
    CacheKey → CacheKey → CacheKey → List ℕ → List ℕ → List (CacheKey × List ℕ) → List ℕ
written k j i ns ms m = if key_eq k j then ns else (if key_eq i j then ms else occurrences_at j m)

head_written :
    (i j : CacheKey) (ns ms : List ℕ) (m : List (CacheKey × List ℕ))
    → (if key_eq i j then ns else occurrences_at j m) ≡ written i j i ns ms m
head_written i j ns ms m = elim (Bool-cases (key_eq i j)) [ inl e ↦ rw e refl | inr e ↦ rw e refl ]

pub occurrences-put :
    (k j : CacheKey) (ns : List ℕ) (m : List (CacheKey × List ℕ))
    → IsClean m
    → occurrences_at j (put_occurrences k ns m) ≡ (if key_eq k j then ns else occurrences_at j m)
unfolding occurrences_at put_occurrences
occurrences-put k j ns [] h = occurrences-keep_nonempty k j ns [] refl
occurrences-put k j ns ((i, ms) ∷ m) h = elim (Bool-cases (key_eq i k)) [
  | inl e ↦ rw e (
      occurrences-keep_nonempty i j ns m h.0
      ∙ subst (λ x. (if key_eq i j then ns else occurrences_at j m) ≡ written x j i ns ms m)
          (key_eq_sound i k e) (head_written i j ns ms m))
  | inr e ↦ rw e (elim (Bool-cases (key_eq i j)) [
    | inl same ↦ rw (same, key_eq_other i j k same e) refl
    | inr other ↦ rw other (occurrences-put k j ns m h.1)
  ])
]

IsClean-keep_nonempty :
    (k : CacheKey) (ns : List ℕ) (m : List (CacheKey × List ℕ))
    → occurrences_at k m ≡ []
    → IsClean m
    → IsClean (keep_nonempty k ns m)
IsClean-keep_nonempty k [] m h c = c
IsClean-keep_nonempty k (n ∷ ns) m h c = (h, c)

pub IsClean-put :
    (k : CacheKey) (ns : List ℕ) (m : List (CacheKey × List ℕ))
    → IsClean m
    → IsClean (put_occurrences k ns m)
unfolding put_occurrences occurrences_at
IsClean-put k ns [] h = IsClean-keep_nonempty k ns [] refl tt
IsClean-put k ns ((i, ms) ∷ m) h = elim (Bool-cases (key_eq i k)) [
  | inl e ↦ rw e (IsClean-keep_nonempty i ns m h.0 h.1)
  | inr e ↦ rw e (
    occurrences-put k i ns m h.1 ∙ rw (key_eq_other i i k (key_eq_refl i) e) h.0,
    IsClean-put k ns m h.1,
  )
]
