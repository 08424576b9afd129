-- ===== src/Engine/Cached/History.antt =====
-- What `history` gives in a session (core/stale_cache.py of src/dogdb).
use dogdb.Prelude.{
  ℕ, zero, suc, ◌-◌, ◌≤◌, ◌≡◌, refl, ap, List, [], ◌∷◌, length, length-drop, drop, arith,
  Bool-cases, inl, inr,
}
use dogdb.Models.{Decision}
use dogdb.Exec.{ok}
use dogdb.StaleCache.{CacheKey, StaleEntry, StaleReadCache, key_eq, history, key_for}
use dogdb.StaleCache.Keys.{at_key}
use dogdb.StaleCache.Trimmed.{count}
use dogdb.StaleCache.Recent.{recent, count-recent}
use dogdb.StaleCache.Indexed.{history-IsIndexed}
use dogdb.StaleCache.Refines.{Tracks}

length-at_key : (k : CacheKey) (l : List StaleEntry) → length (at_key k l) ≡ count k l
length-at_key k [] = refl
length-at_key k (e ∷ l) = elim (Bool-cases (key_eq e.key k)) [
  | inl same ↦ rw same (ap suc (length-at_key k l))
  | inr other ↦ rw other (length-at_key k l)
]

count-cons_le : (k : CacheKey) (e : StaleEntry) (l : List StaleEntry) → count k l ≤ count k (e ∷ l)
count-cons_le k e l = elim (Bool-cases (key_eq e.key k)) [
  | inl same ↦ rw same (omega arith)
  | inr other ↦ rw other (omega arith)
]

count-drop : (k : CacheKey) (n : ℕ) (l : List StaleEntry) → count k (drop n l) ≤ count k l
count-drop k zero l = omega arith
count-drop k (suc n) [] = omega arith
count-drop k (suc n) (e ∷ l) = omega (arith, count-drop k n l, count-cons_le k e l)

-- `history` of `k` gives the entries of the decision's key, few of few.
pub record IsRemembered (per total : ℕ) (k : StaleReadCache) (d : Decision) : Type 0 where
  pub found : history k d ≡ ok (at_key (key_for k d) k.entries)
  pub of_key : length (at_key (key_for k d) k.entries) ≤ per
  pub of_all : length k.entries ≤ total

pub IsRemembered-Tracks :
    (o k : StaleReadCache) (h : List StaleEntry) (d : Decision)
    → Tracks o h k
    → IsRemembered o.per_fingerprint o.total_limit k d
IsRemembered-Tracks o k h d t =
    let r = recent o.per_fingerprint h in
    let q = ap (count (key_for k d)) t.entries in
    record {
      found = history-IsIndexed d t.valid;
      of_key = omega (
        arith,
        length-at_key (key_for k d) k.entries,
        q,
        count-drop (key_for k d) (length r - o.total_limit) r,
        count-recent o.per_fingerprint (key_for k d) h,
      );
      of_all = omega (arith, ap length t.entries, length-drop {0} (length r - o.total_limit) r);
    }
