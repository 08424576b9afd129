-- ===== src/StaleCache/Entries.antt =====
-- The ordered entries of core/stale_cache.py in src/dogdb: an entry is found where it stands, a new
-- one comes last, and the oldest of a key is removed.
use mathlib.Core.Path.{subst}
use mathlib.Core.List.{append_assoc}
use dogdb.Prelude.{
  ℕ, ◌≡◌, refl, sym, ap, true, false, none, some, List, [], ◌∷◌, ◌++◌, ==_iff, if◌then◌else◌, arith,
  Bool-cases, inl, inr,
}
use dogdb.Exec.{ok}
use dogdb.StaleCache.{
  CacheKey, StaleEntry, key_eq, entry_at, find_entry, put_entry, pop_entry, remove_first, collect,
}
use dogdb.StaleCache.Keys.{key_eq_sound, key_eq_refl, at_key, numbers}

pub entry_at_sound :
    (k : CacheKey) (n : ℕ) (e : StaleEntry)
    → entry_at k n e ≡ true
    → (e.key ≡ k) × (e.occurrence ≡ n)
entry_at_sound k n e h =
    (key_eq_sound e.key k (ground (arith, h)), (==_iff e.occurrence n).0 (ground (arith, h)))

-- An entry is found under its own key.
pub entry_at_self : (e : StaleEntry) → entry_at e.key e.occurrence e ≡ true
entry_at_self e = ground (arith, key_eq_refl e.key, ==_iff e.occurrence e.occurrence)

-- No two entries have the same key and occurrence.
abbrev pub IsDistinct : List StaleEntry → Type 0
IsDistinct [] = Unit
IsDistinct (e ∷ l) = (find_entry e.key e.occurrence l ≡ none) × IsDistinct l

pub find_entry-middle :
    (p l : List StaleEntry) (e : StaleEntry)
    → IsDistinct (p ++ e ∷ l)
    → find_entry e.key e.occurrence (p ++ e ∷ l) ≡ some e
unfolding find_entry
find_entry-middle [] l e h = rw (entry_at_self e) refl
find_entry-middle (x ∷ p) l e h = elim (Bool-cases (entry_at e.key e.occurrence x)) [
  | inr other ↦ rw other (find_entry-middle p l e h.1)
  | inl same ↦
      let (key, occurrence) = entry_at_sound e.key e.occurrence x same in
      absurd (cc (h.0, find_entry-middle p l e h.1, key, occurrence))
]

-- Every occurrence of a key has its entry, so that no `KeyError` is raised.
collect-suffix :
    (k : CacheKey) (p l : List StaleEntry)
    → IsDistinct (p ++ l)
    → collect k (numbers k l) (p ++ l) ≡ ok (at_key k l)
unfolding collect
collect-suffix k p [] h = refl
collect-suffix k p (e ∷ l) h =
    let rest =
      subst (λ x. collect k (numbers k l) x ≡ ok (at_key k l)) (append_assoc p (e ∷ []) l)
        (collect-suffix k (p ++ e ∷ []) l (subst IsDistinct (sym (append_assoc p (e ∷ []) l)) h)) in
    elim (Bool-cases (key_eq e.key k)) [
      | inr other ↦ rw other rest
      | inl same ↦
          rw
            (
              same,
              collect,
              subst (λ j. find_entry j e.occurrence (p ++ e ∷ l) ≡ some e)
                  (key_eq_sound e.key k same) (find_entry-middle p l e h),
              rest,
            )
            refl
    ]

pub collect-numbers :
    (k : CacheKey) (l : List StaleEntry)
    → IsDistinct l
    → collect k (numbers k l) l ≡ ok (at_key k l)
collect-numbers k l h = collect-suffix k [] l h

-- Without the oldest entry of a key.
unfoldable pub drop_oldest : CacheKey → List StaleEntry → List StaleEntry
drop_oldest k [] = []
drop_oldest k (e ∷ l) = if key_eq e.key k then l else e ∷ drop_oldest k l

pub remove_first_head : (n : ℕ) (ns : List ℕ) → remove_first n (n ∷ ns) ≡ ns
unfolding remove_first
remove_first_head n ns = ground (arith, ==_iff n n)

-- The entry of the first occurrence of a key is its oldest.
pub pop_entry-oldest :
    (k : CacheKey) (n : ℕ) (ns : List ℕ) (l : List StaleEntry)
    → numbers k l ≡ n ∷ ns
    → pop_entry k n l ≡ drop_oldest k l
unfolding pop_entry drop_oldest
pop_entry-oldest k n ns [] h = refl
pop_entry-oldest k n ns (e ∷ l) h = elim (Bool-cases (key_eq e.key k)) [
  | inl same ↦
      let first : e.occurrence ≡ n =
        cc (let q : e.occurrence ∷ numbers k l ≡ n ∷ ns = rw same at h in q) in
      rw (same, (==_iff e.occurrence n).1 first) refl
  | inr other ↦ rw (other) (ap (◌∷◌ e) (pop_entry-oldest k n ns l (rw other at h)))
]

numbers-drop_oldest_self :
    (k : CacheKey) (n : ℕ) (ns : List ℕ) (l : List StaleEntry)
    → numbers k l ≡ n ∷ ns
    → numbers k (drop_oldest k l) ≡ ns
unfolding drop_oldest
numbers-drop_oldest_self k n ns [] h = cc
numbers-drop_oldest_self k n ns (e ∷ l) h = elim (Bool-cases (key_eq e.key k)) [
  | inl same ↦ rw same (cc (let q : e.occurrence ∷ numbers k l ≡ n ∷ ns = rw same at h in q))
  | inr other ↦ rw (other) (rw other (numbers-drop_oldest_self k n ns l (rw other at h)))
]

numbers-drop_oldest_other :
    (k j : CacheKey) (l : List StaleEntry)
    → key_eq k j ≡ false
    → numbers j (drop_oldest k l) ≡ numbers j l
unfolding drop_oldest
numbers-drop_oldest_other k j [] h = refl
numbers-drop_oldest_other k j (e ∷ l) h = elim (Bool-cases (key_eq e.key k)) [
  | inl same ↦ rw (same, subst (λ x. key_eq x j ≡ false) (sym (key_eq_sound e.key k same)) h) refl
  | inr other ↦ rw other (
      ap (λ (m : List ℕ). if key_eq e.key j then e.occurrence ∷ m else m)
        (numbers-drop_oldest_other k j l h))
]

pub numbers-drop_oldest :
    (k j : CacheKey) (n : ℕ) (ns : List ℕ) (l : List StaleEntry)
    → numbers k l ≡ n ∷ ns
    → numbers j (drop_oldest k l) ≡ (if key_eq k j then ns else numbers j l)
numbers-drop_oldest k j n ns l h = elim (Bool-cases (key_eq k j)) [
  | inl same ↦ rw same (
      subst (λ x. numbers x (drop_oldest k l) ≡ ns) (key_eq_sound k j same)
        (numbers-drop_oldest_self k n ns l h))
  | inr other ↦ rw other (numbers-drop_oldest_other k j l other)
]

-- What is not found in a list is not found in it without an entry.
pub find_entry-drop_oldest :
    (k j : CacheKey) (n : ℕ) (l : List StaleEntry)
    → find_entry j n l ≡ none
    → find_entry j n (drop_oldest k l) ≡ none
unfolding find_entry drop_oldest
find_entry-drop_oldest k j n [] h = refl
find_entry-drop_oldest k j n (e ∷ l) h = elim (Bool-cases (entry_at j n e)) [
  | inl same ↦ absurd (let q : some e ≡ none = rw same at h in cc q)
  | inr other ↦
      let rest : find_entry j n l ≡ none = rw other at h in
      elim (Bool-cases (key_eq e.key k)) [
        | inl own ↦ rw own rest
        | inr not_own ↦ rw not_own (rw other (find_entry-drop_oldest k j n l rest))
      ]
]

pub IsDistinct-drop_oldest :
    (k : CacheKey) (l : List StaleEntry) → IsDistinct l → IsDistinct (drop_oldest k l)
unfolding drop_oldest
IsDistinct-drop_oldest k [] h = tt
IsDistinct-drop_oldest k (e ∷ l) h = elim (Bool-cases (key_eq e.key k)) [
  | inl same ↦ rw same h.1
  | inr other ↦
      rw other (find_entry-drop_oldest k e.key e.occurrence l h.0, IsDistinct-drop_oldest k l h.1)
]

-- A new entry comes last.
pub put_entry-new :
    (e : StaleEntry) (l : List StaleEntry)
    → find_entry e.key e.occurrence l ≡ none
    → put_entry e l ≡ l ++ e ∷ []
unfolding put_entry find_entry
put_entry-new e [] h = refl
put_entry-new e (f ∷ l) h = elim (Bool-cases (entry_at e.key e.occurrence f)) [
  | inl same ↦ absurd (let q : some f ≡ none = rw same at h in cc q)
  | inr other ↦ rw other (ap (◌∷◌ f) (put_entry-new e l (rw other at h)))
]

pub numbers-append :
    (k : CacheKey) (l : List StaleEntry) (e : StaleEntry)
    → numbers k (l ++ e ∷ [])
      ≡ (if key_eq e.key k then numbers k l ++ e.occurrence ∷ [] else numbers k l)
numbers-append k [] e = elim (Bool-cases (key_eq e.key k)) [ inl a ↦ rw a refl | inr a ↦ rw a refl ]
numbers-append k (x ∷ l) e = ground (arith, numbers-append k l e)

find_entry-append :
    (k : CacheKey) (n : ℕ) (l : List StaleEntry) (e : StaleEntry)
    → find_entry k n l ≡ none
    → entry_at k n e ≡ false
    → find_entry k n (l ++ e ∷ []) ≡ none
unfolding find_entry
find_entry-append k n [] e h d = rw d refl
find_entry-append k n (x ∷ l) e h d = elim (Bool-cases (entry_at k n x)) [
  | inl same ↦ absurd (let q : some x ≡ none = rw same at h in cc q)
  | inr other ↦ rw other (find_entry-append k n l e (rw other at h) d)
]

entry_at_symmetric :
    (e x : StaleEntry)
    → entry_at e.key e.occurrence x ≡ false
    → entry_at x.key x.occurrence e ≡ false
entry_at_symmetric e x h = elim (Bool-cases (entry_at x.key x.occurrence e)) [
  | inr other ↦ other
  | inl same ↦
      let (key, occurrence) = entry_at_sound x.key x.occurrence e same in
      absurd (
        cc (
          h,
          entry_at_self x,
          ap (λ k. entry_at k e.occurrence x) key,
          ap (λ n. entry_at x.key n x) occurrence,
        ))
]

pub IsDistinct-append :
    (l : List StaleEntry) (e : StaleEntry)
    → IsDistinct l
    → find_entry e.key e.occurrence l ≡ none
    → IsDistinct (l ++ e ∷ [])
unfolding find_entry
IsDistinct-append [] e h fresh = (refl, tt)
IsDistinct-append (x ∷ l) e h fresh = elim (Bool-cases (entry_at e.key e.occurrence x)) [
  | inl same ↦ absurd (let q : some x ≡ none = rw same at fresh in cc q)
  | inr other ↦ (
    find_entry-append x.key x.occurrence l e h.0 (entry_at_symmetric e x other),
    IsDistinct-append l e h.1 (rw other at fresh),
  )
]
