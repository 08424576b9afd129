-- ===== src/StaleCache/Recent.antt =====
-- What a bounded cache keeps of all that it was ever given: the specification of
-- core/stale_cache.py in src/dogdb.
use dogdb.Prelude.{
  ℕ, zero, suc, ◌+◌, ◌-◌, ◌≤◌, ◌≡◌, refl, ap, ◌∙◌, true, false, List, [], ◌∷◌, ltb, ltb→lt,
  if◌then◌else◌, length, min, arith, Bool-cases, inl, inr,
}
use dogdb.StaleCache.{CacheKey, StaleEntry, key_eq}
use dogdb.StaleCache.Keys.{key_eq_sound}
use dogdb.StaleCache.Entries.{drop_oldest}
use dogdb.StaleCache.Trimmed.{count, drop_of, make_room}

pub not_below : (a b : ℕ) → ltb a b ≡ false → b ≤ a
not_below a b h = ground arith

-- The entries that have fewer than `limit` later ones of their own key.
unfoldable pub recent : ℕ → List StaleEntry → List StaleEntry
recent limit [] = []
recent limit (e ∷ l) =
    let rest = recent limit l in if ltb (count e.key l) limit then e ∷ rest else rest

pub same_count :
    (e : StaleEntry) (k : CacheKey) (l : List StaleEntry)
    → key_eq e.key k ≡ true
    → count e.key l ≡ count k l
same_count e k l h = ap (λ j. count j l) (key_eq_sound e.key k h)

pub count-cons_same :
    (k : CacheKey) (e : StaleEntry) (l : List StaleEntry)
    → key_eq e.key k ≡ true
    → count k (e ∷ l) ≡ suc (count k l)
count-cons_same k e l h = rw h refl

pub count-cons_other :
    (k : CacheKey) (e : StaleEntry) (l : List StaleEntry)
    → key_eq e.key k ≡ false
    → count k (e ∷ l) ≡ count k l
count-cons_other k e l h = rw h refl

-- There are `limit` of a key at most, and all that there are if they are fewer.
pub count-recent :
    (limit : ℕ) (k : CacheKey) (l : List StaleEntry)
    → count k (recent limit l) ≡ min (count k l) limit
unfolding recent
count-recent limit k [] = omega arith
count-recent limit k (e ∷ l) = elim (Bool-cases (key_eq e.key k)) [
  | inl same ↦ elim (Bool-cases (ltb (count e.key l) limit)) [
    | inl kept ↦ rw kept (
        omega (
          arith,
          count-recent limit k l,
          count-cons_same k e l same,
          count-cons_same k e (recent limit l) same,
          same_count e k l same,
          ltb→lt _ _ kept,
        ))
    | inr out ↦ rw out (
        omega (
          arith,
          count-recent limit k l,
          count-cons_same k e l same,
          same_count e k l same,
          not_below _ _ out,
        ))
  ]
  | inr other ↦ elim (Bool-cases (ltb (count e.key l) limit)) [
    | inl kept ↦ rw kept (
        omega (
          arith,
          count-recent limit k l,
          count-cons_other k e l other,
          count-cons_other k e (recent limit l) other,
        ))
    | inr out ↦ rw out (omega (arith, count-recent limit k l, count-cons_other k e l other))
  ]
]

drop_of-other :
    (k : CacheKey) (n : ℕ) (e : StaleEntry) (l : List StaleEntry)
    → key_eq e.key k ≡ false
    → drop_of k n (e ∷ l) ≡ e ∷ drop_of k n l
unfolding drop_of drop_oldest
drop_of-other k zero e l h = refl
drop_of-other k (suc n) e l h = rw h (drop_of-other k n e (drop_oldest k l) h)

pub make_room-other :
    (k : CacheKey) (limit : ℕ) (e : StaleEntry) (l : List StaleEntry)
    → key_eq e.key k ≡ false
    → make_room k limit (e ∷ l) ≡ e ∷ make_room k limit l
make_room-other k limit e l h =
    ap (λ n. drop_of k (n + 1 - limit) (e ∷ l)) (count-cons_other k e l h)
    ∙ drop_of-other k (count k l + 1 - limit) e l h

drop_of-head :
    (k : CacheKey) (e : StaleEntry) (l : List StaleEntry)
    → key_eq e.key k ≡ true
    → drop_of k 1 (e ∷ l) ≡ l
unfolding drop_of drop_oldest
drop_of-head k e l h = rw h refl

-- With as many entries of a key as there may be, room is made by the oldest.
pub make_room-head :
    (k : CacheKey) (limit : ℕ) (e : StaleEntry) (l : List StaleEntry)
    → key_eq e.key k ≡ true
    → count k l + 1 ≡ limit
    → make_room k limit (e ∷ l) ≡ l
make_room-head k limit e l h full =
    let one : count k (e ∷ l) + 1 - limit ≡ 1 = omega (arith, full, count-cons_same k e l h) in
    ap (λ n. drop_of k n (e ∷ l)) one ∙ drop_of-head k e l h

length-drop_oldest : (k : CacheKey) (l : List StaleEntry) → length l ≤ length (drop_oldest k l) + 1
unfolding drop_oldest
length-drop_oldest k [] = omega arith
length-drop_oldest k (e ∷ l) = ground (arith, length-drop_oldest k l)

pub length-drop_of :
    (k : CacheKey) (n : ℕ) (l : List StaleEntry) → length l ≤ length (drop_of k n l) + n
unfolding drop_of
length-drop_of k zero l = omega arith
length-drop_of k (suc n) l =
    omega (arith, length-drop_oldest k l, length-drop_of k n (drop_oldest k l))
