-- ===== src/StaleCache/Trimmed.antt =====
-- The two loops of `add` in core/stale_cache.py of src/dogdb: what is left of the entries.
use mathlib.Core.Path.{subst}
use dogdb.Prelude.{
  ℕ, zero, suc, ◌+◌, ◌-◌, ◌≤◌, ◌<◌, ◌≡◌, refl, sym, ap, ◌∙◌, false, List, [], ◌∷◌, leb, ltb, length,
  drop, arith, Bool-cases, inl, inr, ltb→lt, leb→le,
}
use dogdb.StaleCache.{
  CacheKey, StaleEntry, StaleReadCache, occurrences_at, remove, remove_occurrence, remove_oldest,
  trim_key, trim_total,
}
use dogdb.StaleCache.Keys.{numbers, key_eq_refl}
use dogdb.StaleCache.Entries.{drop_oldest, numbers-drop_oldest}
use dogdb.StaleCache.Indexed.{IsIndexed, Holds, SameLimits-refl, Holds-trans, remove-Holds}

-- How many entries of a key there are.
abbrev pub count : CacheKey → List StaleEntry → ℕ
count k l = length (numbers k l)

-- Without the n oldest entries of a key.
unfoldable pub drop_of : CacheKey → ℕ → List StaleEntry → List StaleEntry
drop_of k zero l = l
drop_of k (suc n) l = drop_of k n (drop_oldest k l)

-- Room for one more entry of the key.
abbrev pub make_room : CacheKey → ℕ → List StaleEntry → List StaleEntry
make_room k limit l = drop_of k (count k l + 1 - limit) l

-- The last n entries.
abbrev pub newest : ℕ → List StaleEntry → List StaleEntry
newest n l = drop (length l - n) l

count-drop_oldest :
    (k : CacheKey) (n : ℕ) (ns : List ℕ) (l : List StaleEntry)
    → numbers k l ≡ n ∷ ns
    → count k (drop_oldest k l) ≡ length ns
count-drop_oldest k n ns l h =
    ap length (numbers-drop_oldest k k n ns l h ∙ rw (key_eq_refl k) refl)

make_room-full :
    (k : CacheKey) (limit n : ℕ) (ns : List ℕ) (l : List StaleEntry)
    → numbers k l ≡ n ∷ ns
    → limit ≤ count k l
    → make_room k limit (drop_oldest k l) ≡ make_room k limit l
unfolding drop_of
make_room-full k limit n ns l h full =
    let c = ap length h in
    let shorter = count-drop_oldest k n ns l h in
    let left : count k l + 1 - limit ≡ suc (count k (drop_oldest k l) + 1 - limit) =
      omega (arith, c, shorter, full) in
    sym (ap (λ m. drop_of k m l) left)

pub enough_room :
    (k : CacheKey) (limit : ℕ) (l : List StaleEntry) → count k l < limit → l ≡ make_room k limit l
unfolding drop_of
enough_room k limit l h =
    let none_over : 0 ≡ count k l + 1 - limit = omega (arith, h) in
    ap (λ m. drop_of k m l) none_over

pub leb_of_false : (a b : ℕ) → leb a b ≡ false → b < a
leb_of_false a b h = ground arith

first_of : (l : List ℕ) → 0 < length l → (n : ℕ) × (ns : List ℕ) × (l ≡ n ∷ ns)
first_of [] h = absurd (omega (arith, h))
first_of (n ∷ ns) h = (n, ns, refl)

-- `while len(self._by_key[key]) >= self.per_fingerprint`
pub trim_key-Holds :
    (fuel : ℕ) (k : CacheKey) (c : StaleReadCache)
    → IsIndexed c
    → 0 < c.per_fingerprint
    → count k c.entries ≤ fuel
    → Holds (make_room k c.per_fingerprint c.entries) c (trim_key fuel k c)
unfolding trim_key remove_occurrence
trim_key-Holds zero k c h pos few = record {
  valid = h;
  entries = enough_room k c.per_fingerprint c.entries (omega (arith, pos, few));
  limits = SameLimits-refl c;
}
trim_key-Holds (suc fuel) k c h pos few =
    elim (Bool-cases (leb c.per_fingerprint (length (occurrences_at k c.by_key)))) [
      | inr room ↦ rw room (record {
        valid = h;
        entries =
            enough_room k c.per_fingerprint c.entries
              (omega (arith, leb_of_false _ _ room, ap length (h.indexed k)));
        limits = SameLimits-refl c;
      })
      | inl full ↦ rw full (
          let (n, ns, e) =
            first_of (numbers k c.entries)
              (omega (arith, pos, leb→le _ _ full, ap length (h.indexed k))) in
          let removed = remove-Holds c k n ns h e in
          let rest =
            trim_key-Holds fuel k (remove c k n) removed.valid
              (rw removed.limits.per_fingerprint pos)
              (omega (
                arith,
                few,
                ap length e,
                count-drop_oldest k n ns c.entries e,
                ap (count k) removed.entries,
              )) in
          subst
            (λ l. Holds l c (trim_key fuel k (remove_occurrence k (occurrences_at k c.by_key) c)))
            (rw (removed.limits.per_fingerprint, removed.entries)
              (make_room-full k c.per_fingerprint n ns c.entries e
                (omega (arith, leb→le _ _ full, ap length (h.indexed k)))))
            (subst
              (λ l.
                Holds (make_room k (remove c k n).per_fingerprint (remove c k n).entries) c
                  (trim_key fuel k (remove_occurrence k l c)))
              (sym (h.indexed k ∙ e)) (Holds-trans removed rest)))
    ]

pub newest-cons :
    (limit : ℕ) (e : StaleEntry) (l : List StaleEntry)
    → limit ≤ length l
    → newest limit l ≡ newest limit (e ∷ l)
newest-cons limit e l h =
    let one_more : suc (length l - limit) ≡ suc (length l) - limit = omega (arith, h) in
    ap (λ n. drop n (e ∷ l)) one_more

pub newest-few : (limit : ℕ) (l : List StaleEntry) → length l ≤ limit → l ≡ newest limit l
newest-few limit l h =
    let none_over : 0 ≡ length l - limit = omega (arith, h) in ap (λ n. drop n l) none_over

drop_oldest-head : (e : StaleEntry) (l : List StaleEntry) → drop_oldest e.key (e ∷ l) ≡ l
unfolding drop_oldest
drop_oldest-head e l = rw (key_eq_refl e.key) refl

-- The oldest entry is the first of its key.
remove_oldest-Holds :
    (c : StaleReadCache) (e : StaleEntry) (l : List StaleEntry)
    → IsIndexed c
    → c.entries ≡ e ∷ l
    → Holds l c (remove_oldest c.entries c)
unfolding remove_oldest
remove_oldest-Holds c e l h q =
    let head : numbers e.key (e ∷ l) ≡ e.occurrence ∷ numbers e.key l =
      rw (key_eq_refl e.key) refl in
    subst (λ m. Holds l c (remove_oldest m c)) (sym q)
      (subst (λ m. Holds m c (remove c e.key e.occurrence))
        (ap (drop_oldest e.key) q ∙ drop_oldest-head e l)
        (remove-Holds c e.key e.occurrence (numbers e.key l) h (ap (numbers e.key) q ∙ head)))

some_entries :
    (l : List StaleEntry) → 0 < length l → (e : StaleEntry) × (m : List StaleEntry) × (l ≡ e ∷ m)
some_entries [] h = absurd (omega (arith, h))
some_entries (e ∷ m) h = (e, m, refl)

-- `while len(self._entries) > self.total_limit`
pub trim_total-Holds :
    (fuel : ℕ) (c : StaleReadCache)
    → IsIndexed c
    → length c.entries ≤ fuel + c.total_limit
    → Holds (newest c.total_limit c.entries) c (trim_total fuel c)
unfolding trim_total
trim_total-Holds zero c h few = record {
  valid = h;
  entries = newest-few c.total_limit c.entries (omega (arith, few));
  limits = SameLimits-refl c;
}
trim_total-Holds (suc fuel) c h few = elim (Bool-cases (ltb c.total_limit (length c.entries))) [
  | inr room ↦ rw room (record {
    valid = h;
    entries = newest-few c.total_limit c.entries (ground (arith, room));
    limits = SameLimits-refl c;
  })
  | inl full ↦ rw full (
      let over = ltb→lt _ _ full in
      let (e, l, q) = some_entries c.entries (omega (arith, over)) in
      let removed = remove_oldest-Holds c e l h q in
      let rest =
        trim_total-Holds fuel (remove_oldest c.entries c) removed.valid (
          omega (arith, few, ap length q, ap length removed.entries, removed.limits.total_limit)) in
      subst (λ m. Holds m c (trim_total fuel (remove_oldest c.entries c)))
        (ap (λ n. newest n (remove_oldest c.entries c).entries) removed.limits.total_limit
          ∙ ap (newest c.total_limit) removed.entries
          ∙ newest-cons c.total_limit e l (omega (arith, over, ap length q))
          ∙ ap (newest c.total_limit) (sym q))
        (Holds-trans removed rest))
]
