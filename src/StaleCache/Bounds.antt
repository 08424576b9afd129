-- ===== src/StaleCache/Bounds.antt =====
-- The limits of the cache of core/stale_cache.py in src/dogdb.
use dogdb.Prelude.{
  ℕ, zero, suc, ◌+◌, ◌≤◌, ◌<◌, ◌≡◌, refl, ap, ◌∙◌, true, false, List, [], ◌∷◌, ltb, leb, ltb→lt,
  ◌-◌, length, arith, Bool-cases, inl, inr, ◌⊎◌,
}
use mathlib.Core.Path.{subst}
use dogdb.Models.{LogicalResult, Decision}
use dogdb.StaleCache.Entries.{entry_at_self}
use dogdb.StaleCache.{
  CacheKey, StaleEntry, StaleReadCache, pop_entry, remove, trim_key, trim_total, remove_oldest,
  remove_occurrence, put, add, key_for, occurrences_at,
}

entries-remove :
    (c : StaleReadCache) (e : StaleEntry) (l : List StaleEntry)
    → c.entries ≡ e ∷ l
    → (remove c e.key e.occurrence).entries ≡ l
unfolding remove pop_entry
entries-remove c e l h = rw (h, entry_at_self) refl

limit-remove_oldest :
    (c : StaleReadCache) (l : List StaleEntry) → (remove_oldest l c).total_limit ≡ c.total_limit
unfolding remove_oldest remove
limit-remove_oldest c [] = refl
limit-remove_oldest c (e ∷ l) = refl

length-remove_oldest :
    (c : StaleReadCache) (l : List StaleEntry)
    → c.entries ≡ l
    → length (remove_oldest l c).entries ≡ length l - 1
unfolding remove_oldest
length-remove_oldest c [] h = rw h refl
length-remove_oldest c (e ∷ l) h = ap length (entries-remove c e l h) ∙ omega arith

-- With a round for each entry above the limit, the loop stops at the limit.
trim_total-bounded :
    (fuel : ℕ) (c : StaleReadCache)
    → length c.entries ≤ fuel + c.total_limit
    → length (trim_total fuel c).entries ≤ c.total_limit
unfolding trim_total
trim_total-bounded zero c h = omega arith
trim_total-bounded (suc fuel) c h = elim (Bool-cases (ltb c.total_limit (length c.entries))) [
  | inl over ↦ rw over (
      subst (λ n. length (trim_total fuel (remove_oldest c.entries c)).entries ≤ n)
        (limit-remove_oldest c c.entries)
        (trim_total-bounded fuel (remove_oldest c.entries c)
          (omega (arith, length-remove_oldest c c.entries refl, limit-remove_oldest c c.entries))))
  | inr fits ↦ rw fits (ground (arith, fits))
]

limit-remove_occurrence :
    (k : CacheKey) (l : List ℕ) (c : StaleReadCache)
    → (remove_occurrence k l c).total_limit ≡ c.total_limit
unfolding remove_occurrence remove
limit-remove_occurrence k [] c = refl
limit-remove_occurrence k (n ∷ l) c = refl

limit-trim_key :
    (fuel : ℕ) (k : CacheKey) (c : StaleReadCache) → (trim_key fuel k c).total_limit ≡ c.total_limit
unfolding trim_key
limit-trim_key zero k c = refl
limit-trim_key (suc fuel) k c =
    elim (Bool-cases (leb c.per_fingerprint (length (occurrences_at k c.by_key)))) [
      | inl h ↦ rw h (
          limit-trim_key fuel k (remove_occurrence k (occurrences_at k c.by_key) c)
          ∙ limit-remove_occurrence k (occurrences_at k c.by_key) c)
      | inr h ↦ rw h refl
    ]

limit-put :
    (c : StaleReadCache) (k : CacheKey) (n : ℕ) (result : LogicalResult)
    → (put c k n result).total_limit ≡ c.total_limit
unfolding put
limit-put c k n result = refl

trimmed-bounded :
    (c : StaleReadCache) (k : CacheKey) (n : ℕ) (result : LogicalResult) (limit : ℕ)
    → c.total_limit ≡ limit
    → length (trim_total (length (put c k n result).entries) (put c k n result)).entries ≤ limit
trimmed-bounded c k n result limit h =
    subst
      (λ m. length (trim_total (length (put c k n result).entries) (put c k n result)).entries ≤ m)
      (limit-put c k n result ∙ h)
      (trim_total-bounded (length (put c k n result).entries) (put c k n result) (omega arith))

-- After a result is added the cache has at most `total_limit` entries, however many it had; a result
-- with more rows than `max_intervention_rows` leaves the cache as it is.
pub add-bounded :
    (c : StaleReadCache) (d : Decision) (result : LogicalResult)
    → ((length result.rows ≤ c.max_intervention_rows)
        × (length (add c d result).0.entries ≤ c.total_limit)
        × ((add c d result).1 ≡ true))
      ⊎ ((c.max_intervention_rows < length result.rows) × (add c d result ≡ (c, false)))
unfolding add
add-bounded c d result = elim (Bool-cases (ltb c.max_intervention_rows (length result.rows))) [
  | inl over ↦ inr (ltb→lt _ _ over, rw over refl)
  | inr fits ↦ inl (
    ground (arith, fits),
    rw fits (
        trimmed-bounded (trim_key (length (occurrences_at (key_for c d) c.by_key)) (key_for c d) c)
          (key_for c d) d.occurrence result c.total_limit
          (limit-trim_key (length (occurrences_at (key_for c d) c.by_key)) (key_for c d) c)),
    rw fits refl,
  )
]
