-- ===== src/StaleCache/Refines.antt =====
-- The cache of core/stale_cache.py in src/dogdb, against an ideal one that forgets nothing.
use mathlib.Core.Path.{subst}
use dogdb.Prelude.{
  ℕ, zero, suc, ◌<◌, ◌≡◌, refl, sym, ap, ◌∙◌, Bool, false, none, some, List, [], ◌∷◌, ◌++◌, ltb,
  if◌then◌else◌, length, drop, arith, Bool-cases, inl, inr,
}
use dogdb.Models.{LogicalResult, Decision}
use dogdb.Exec.{ok}
use dogdb.StaleCache.{
  CacheKey, StaleEntry, StaleReadCache, new, entry_at, find_entry, occurrences_at, add, history,
  key_for,
}
use dogdb.StaleCache.Keys.{at_key}
use dogdb.StaleCache.Indexed.{
  IsIndexed, SameLimits, SameLimits-refl, SameLimits-trans, history-IsIndexed,
}
use dogdb.StaleCache.Trimmed.{count, newest}
use dogdb.StaleCache.Added.{entry_of, add-Holds, add-too_long, with_result}
use dogdb.StaleCache.Recent.{recent, count-recent}
use dogdb.StaleCache.Window.{recent-append}
use dogdb.StaleCache.Newest.{newest-room}

-- A result that a client was given, with the decision of its statement.
abbrev pub Delivery : Type 0
Delivery = Decision × LogicalResult

unfoldable pub add_each : List Delivery → StaleReadCache → StaleReadCache
add_each [] c = c
add_each ((d, r) ∷ l) c = add_each l (add c d r).0

-- A result that is not too long is the last of those that were given; `h` has them, oldest first.
unfoldable pub note : StaleReadCache → List StaleEntry → Decision → LogicalResult → List StaleEntry
note c h d r = if ltb c.max_intervention_rows (length r.rows) then h else h ++ entry_of c d r ∷ []

unfoldable pub delivered : StaleReadCache → List StaleEntry → List Delivery → List StaleEntry
delivered c h [] = h
delivered c h ((d, r) ∷ l) = delivered c (note c h d r) l

-- No result comes under the key and the occurrence of an earlier one.
abbrev pub AreNew : StaleReadCache → List StaleEntry → List Delivery → Type 0
AreNew c h [] = Unit
AreNew c h ((d, r) ∷ l) =
    (find_entry (key_for c d) d.occurrence h ≡ none) × AreNew c (note c h d r) l

-- Of what was given, a cache keeps the last `total_limit` of those that have fewer than
-- `per_fingerprint` later ones of their own key.
abbrev pub kept : StaleReadCache → List StaleEntry → List StaleEntry
kept c h = newest c.total_limit (recent c.per_fingerprint h)

find_entry-cons :
    (k : CacheKey) (n : ℕ) (e : StaleEntry) (l : List StaleEntry)
    → find_entry k n (e ∷ l) ≡ none
    → (entry_at k n e ≡ false) × (find_entry k n l ≡ none)
unfolding find_entry
find_entry-cons k n e l h = elim (Bool-cases (entry_at k n e)) [
  | inl same ↦ absurd (let q : some e ≡ none = rw same at h in cc q)
  | inr other ↦ (other, rw other at h)
]

find_entry-recent :
    (k : CacheKey) (n limit : ℕ) (l : List StaleEntry)
    → find_entry k n l ≡ none
    → find_entry k n (recent limit l) ≡ none
unfolding recent find_entry
find_entry-recent k n limit [] h = refl
find_entry-recent k n limit (e ∷ l) h =
    let (other, rest) = find_entry-cons k n e l h in
    let none_later = find_entry-recent k n limit l rest in
    elim (Bool-cases (ltb (count e.key l) limit)) [
      | inl stays ↦ rw stays (rw other none_later)
      | inr out ↦ rw out none_later
    ]

find_entry-drop :
    (k : CacheKey) (n m : ℕ) (l : List StaleEntry)
    → find_entry k n l ≡ none
    → find_entry k n (drop m l) ≡ none
find_entry-drop k n zero l h = h
find_entry-drop k n (suc m) [] h = h
find_entry-drop k n (suc m) (e ∷ l) h = find_entry-drop k n m l (find_entry-cons k n e l h).1

-- The cache `c` has what a cache with the limits of `o` keeps of the entries `h`.
pub record Tracks (o : StaleReadCache) (h : List StaleEntry) (c : StaleReadCache) : Type 0 where
  pub valid : IsIndexed c
  pub entries : c.entries ≡ kept o h
  pub limits : SameLimits o c

key_for-same : (o c : StaleReadCache) (d : Decision) → SameLimits o c → key_for c d ≡ key_for o d
key_for-same o c d s =
    ap
      (λ b. record {
        template = d.template_fingerprint;
        parameter = if b then some d.parameter_fingerprint else none;
      })
      s.include_params

with_result-same :
    (o c : StaleReadCache) (e : StaleEntry) (l : List StaleEntry)
    → SameLimits o c
    → with_result c e l ≡ with_result o e l
with_result-same o c e l s = rw (s.per_fingerprint, s.total_limit) refl

-- To add to what is kept is to keep of what was added to.
with_result-kept :
    (o : StaleReadCache) (h : List StaleEntry) (e : StaleEntry)
    → 0 < o.per_fingerprint
    → with_result o e (kept o h) ≡ kept o (h ++ e ∷ [])
with_result-kept o h e pos =
    newest-room o.per_fingerprint o.total_limit pos e (recent o.per_fingerprint h)
      (omega (arith, count-recent o.per_fingerprint e.key h))
    ∙ ap (newest o.total_limit) (sym (recent-append o.per_fingerprint pos e h))

add-Tracks_fits :
    (o c : StaleReadCache) (h : List StaleEntry) (d : Decision) (r : LogicalResult)
    → 0 < o.per_fingerprint
    → Tracks o h c
    → find_entry (key_for o d) d.occurrence h ≡ none
    → ltb c.max_intervention_rows (length r.rows) ≡ false
    → Tracks o (h ++ entry_of o d r ∷ []) (add c d r).0
add-Tracks_fits o c h d r pos t fresh fits =
    let k = key_for-same o c d t.limits in
    let e : entry_of c d r ≡ entry_of o d r =
      ap (λ j. record { key = j; occurrence = d.occurrence; result = r }) k in
    let absent =
      subst (λ j. find_entry j d.occurrence c.entries ≡ none) (sym k)
        (subst (λ l. find_entry (key_for o d) d.occurrence l ≡ none) (sym t.entries)
          (find_entry-drop (key_for o d) d.occurrence _ (recent o.per_fingerprint h)
            (find_entry-recent (key_for o d) d.occurrence o.per_fingerprint h fresh))) in
    let held = add-Holds c d r t.valid (rw t.limits.per_fingerprint pos) absent fits in
    record {
      valid = held.valid;
      entries =
          held.entries
          ∙ with_result-same o c (entry_of c d r) c.entries t.limits
          ∙ ap (λ x. with_result o x c.entries) e
          ∙ ap (with_result o (entry_of o d r)) t.entries
          ∙ with_result-kept o h (entry_of o d r) pos;
      limits = SameLimits-trans t.limits held.limits;
    }

pub add-Tracks :
    (o c : StaleReadCache) (h : List StaleEntry) (d : Decision) (r : LogicalResult)
    → 0 < o.per_fingerprint
    → Tracks o h c
    → find_entry (key_for o d) d.occurrence h ≡ none
    → Tracks o (note o h d r) (add c d r).0
unfolding note
add-Tracks o c h d r pos t fresh = elim (Bool-cases (ltb o.max_intervention_rows (length r.rows))) [
  | inl long ↦
      rw long
        (subst (Tracks o h) (sym (add-too_long c d r (rw t.limits.max_intervention_rows long))) t)
  | inr fits ↦
      rw fits (add-Tracks_fits o c h d r pos t fresh (rw t.limits.max_intervention_rows fits))
]

add_each-Tracks :
    (o : StaleReadCache) (l : List Delivery) (h : List StaleEntry) (c : StaleReadCache)
    → 0 < o.per_fingerprint
    → Tracks o h c
    → AreNew o h l
    → Tracks o (delivered o h l) (add_each l c)
unfolding delivered add_each
add_each-Tracks o [] h c pos t new = t
add_each-Tracks o ((d, r) ∷ l) h c pos t new =
    add_each-Tracks o l (note o h d r) (add c d r).0 pos (add-Tracks o c h d r pos t new.0) new.1

pub new-Tracks : (b : Bool) (m : ℕ) → Tracks (new b m) [] (new b m)
unfolding recent occurrences_at
new-Tracks b m = record {
  valid = record { indexed = λ k. refl; clean = tt; distinct = tt };
  entries = refl;
  limits = SameLimits-refl (new b m);
}

-- Whatever results the cache of a session is given, each under a key and an occurrence that none
-- before it had: the cache has, oldest first, the last 64 of those results that are not too long and
-- have fewer than four later ones of their own key; and `history` raises nothing, and gives those of
-- the decision's key.
pub add_each-kept :
    (b : Bool) (m : ℕ) (l : List Delivery)
    → AreNew (new b m) [] l
    → ((add_each l (new b m)).entries ≡ newest 64 (recent 4 (delivered (new b m) [] l)))
      × ((d : Decision)
          → history (add_each l (new b m)) d
            ≡ ok (at_key (key_for (new b m) d) (newest 64 (recent 4 (delivered (new b m) [] l)))))
add_each-kept b m l fresh =
    let t = add_each-Tracks (new b m) l [] (new b m) (omega arith) (new-Tracks b m) fresh in
    (
      t.entries,
      λ d.
          history-IsIndexed d t.valid
          ∙ ap ok (
              ap (λ k. at_key k (add_each l (new b m)).entries)
                (key_for-same (new b m) (add_each l (new b m)) d t.limits)
              ∙ ap (at_key (key_for (new b m) d)) t.entries),
    )
