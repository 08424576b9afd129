-- ===== src/StaleCache/Added.antt =====
-- `add` of core/stale_cache.py in src/dogdb as a whole.
use mathlib.Core.Path.{subst}
use dogdb.Prelude.{
  ℕ, zero, suc, ◌<◌, ◌≡◌, refl, sym, ap, ◌∙◌, true, false, none, List, [], ◌∷◌, ◌++◌, ltb, length,
  arith,
}
use dogdb.Models.{LogicalResult, Decision}
use dogdb.StaleCache.{
  CacheKey, StaleEntry, StaleReadCache, find_entry, occurrences_at, trim_key, trim_total, put, add,
  key_for,
}
use dogdb.StaleCache.Entries.{find_entry-drop_oldest}
use dogdb.StaleCache.Indexed.{IsIndexed, Holds, Holds-trans, put-Holds}
use dogdb.StaleCache.Trimmed.{drop_of, make_room, newest, trim_key-Holds, trim_total-Holds}

pub find_entry-drop_of :
    (k j : CacheKey) (n m : ℕ) (l : List StaleEntry)
    → find_entry j n l ≡ none
    → find_entry j n (drop_of k m l) ≡ none
unfolding drop_of
find_entry-drop_of k j n zero l h = h
find_entry-drop_of k j n (suc m) l h =
    find_entry-drop_of k j n m _ (find_entry-drop_oldest k j n l h)

-- The entry of a result that is added.
abbrev pub entry_of : StaleReadCache → Decision → LogicalResult → StaleEntry
entry_of c d r = record { key = key_for c d; occurrence = d.occurrence; result = r }

-- What is in the cache once the result is added.
abbrev pub with_result : StaleReadCache → StaleEntry → List StaleEntry → List StaleEntry
with_result c e l = newest c.total_limit (make_room e.key c.per_fingerprint l ++ e ∷ [])

stored-Holds :
    (c : StaleReadCache) (d : Decision) (r : LogicalResult)
    → IsIndexed c
    → 0 < c.per_fingerprint
    → find_entry (key_for c d) d.occurrence c.entries ≡ none
    → Holds (make_room (key_for c d) c.per_fingerprint c.entries ++ entry_of c d r ∷ []) c (
        put
          (trim_key (length (occurrences_at (key_for c d) c.by_key)) (key_for c d) c)
          (key_for c d)
          d.occurrence
          r)
stored-Holds c d r h pos fresh =
    let k = key_for c d in
    let trimmed =
      trim_key-Holds (length (occurrences_at k c.by_key)) k c h pos
        (omega (arith, ap length (h.indexed k))) in
    let put_in =
      put-Holds (trim_key (length (occurrences_at k c.by_key)) k c) k d.occurrence r trimmed.valid (
        subst (λ l. find_entry k d.occurrence l ≡ none) (sym trimmed.entries)
          (find_entry-drop_of k k d.occurrence _ c.entries fresh)) in
    subst
      (λ l.
        Holds (l ++ entry_of c d r ∷ []) c
          (put (trim_key (length (occurrences_at k c.by_key)) k c) k d.occurrence r))
      trimmed.entries (Holds-trans trimmed put_in)

-- A result that is not too long, under an occurrence that the cache does not have.
pub add-Holds :
    (c : StaleReadCache) (d : Decision) (r : LogicalResult)
    → IsIndexed c
    → 0 < c.per_fingerprint
    → find_entry (key_for c d) d.occurrence c.entries ≡ none
    → ltb c.max_intervention_rows (length r.rows) ≡ false
    → Holds (with_result c (entry_of c d r) c.entries) c (add c d r).0
unfolding add
add-Holds c d r h pos fresh fits =
    let k = key_for c d in
    let s = put (trim_key (length (occurrences_at k c.by_key)) k c) k d.occurrence r in
    let stored = stored-Holds c d r h pos fresh in
    let all = trim_total-Holds (length s.entries) s stored.valid (omega arith) in
    rw fits (
      subst (λ l. Holds l c (trim_total (length s.entries) s))
        (ap (λ n. newest n s.entries) stored.limits.total_limit
          ∙ ap (newest c.total_limit) stored.entries)
        (Holds-trans stored all))

-- A result that is too long changes nothing.
pub add-too_long :
    (c : StaleReadCache) (d : Decision) (r : LogicalResult)
    → ltb c.max_intervention_rows (length r.rows) ≡ true
    → (add c d r).0 ≡ c
unfolding add
add-too_long c d r long = rw long refl
