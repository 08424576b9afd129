-- ===== src/StaleCache/Indexed.antt =====
-- The invariant of the cache of core/stale_cache.py in src/dogdb: the occurrences by key are those of
-- the entries, so that `history` finds every entry that it names.
use dogdb.Prelude.{
  ℕ, ◌≡◌, refl, sym, ap, ◌∙◌, none, List, [], ◌∷◌, ◌++◌, if◌then◌else◌, Bool-cases, inl, inr,
}
use dogdb.Models.{LogicalResult, Decision}
use dogdb.Exec.{ok}
use dogdb.StaleCache.{
  CacheKey, StaleEntry, StaleReadCache, key_eq, find_entry, occurrences_at, remove, put, history,
  key_for,
}
use dogdb.StaleCache.Keys.{at_key, numbers, IsClean, occurrences-put, IsClean-put, key_eq_sound}
use dogdb.StaleCache.Entries.{
  IsDistinct, collect-numbers, drop_oldest, remove_first_head, pop_entry-oldest,
  numbers-drop_oldest, IsDistinct-drop_oldest, put_entry-new, numbers-append, IsDistinct-append,
}

pub record IsIndexed (c : StaleReadCache) : Type 0 where
  pub indexed : (k : CacheKey) → occurrences_at k c.by_key ≡ numbers k c.entries
  pub clean : IsClean c.by_key
  pub distinct : IsDistinct c.entries

-- `history` raises no `KeyError`, and gives the entries of the key in the order of the cache.
pub history-IsIndexed :
    {c : StaleReadCache} (d : Decision)
    → IsIndexed c
    → history c d ≡ ok (at_key (key_for c d) c.entries)
unfolding history
history-IsIndexed {c} d h =
    rw (h.indexed (key_for c d)) (collect-numbers (key_for c d) c.entries h.distinct)

-- The settings of a cache are as they were.
pub record SameLimits (c d : StaleReadCache) : Type 0 where
  pub per_fingerprint : d.per_fingerprint ≡ c.per_fingerprint
  pub total_limit : d.total_limit ≡ c.total_limit
  pub include_params : d.include_params ≡ c.include_params
  pub max_intervention_rows : d.max_intervention_rows ≡ c.max_intervention_rows

-- The cache `d` is `c` with the entries `l`.
pub record Holds (l : List StaleEntry) (c d : StaleReadCache) : Type 0 where
  pub valid : IsIndexed d
  pub entries : d.entries ≡ l
  pub limits : SameLimits c d

pub SameLimits-refl : (c : StaleReadCache) → SameLimits c c
SameLimits-refl c = record {
  per_fingerprint = refl;
  total_limit = refl;
  include_params = refl;
  max_intervention_rows = refl;
}

pub SameLimits-trans : {a b c : StaleReadCache} → SameLimits a b → SameLimits b c → SameLimits a c
SameLimits-trans h k = record {
  per_fingerprint = k.per_fingerprint ∙ h.per_fingerprint;
  total_limit = k.total_limit ∙ h.total_limit;
  include_params = k.include_params ∙ h.include_params;
  max_intervention_rows = k.max_intervention_rows ∙ h.max_intervention_rows;
}

pub Holds-trans :
    {l m : List StaleEntry} {a b c : StaleReadCache} → Holds l a b → Holds m b c → Holds m a c
Holds-trans h k = record {
  valid = k.valid;
  entries = k.entries;
  limits = SameLimits-trans h.limits k.limits;
}

remove-entries :
    (c : StaleReadCache) (k : CacheKey) (n : ℕ) (ns : List ℕ)
    → numbers k c.entries ≡ n ∷ ns
    → (remove c k n).entries ≡ drop_oldest k c.entries
unfolding remove
remove-entries c k n ns e = pop_entry-oldest k n ns c.entries e

remove-IsIndexed :
    (c : StaleReadCache) (k : CacheKey) (n : ℕ) (ns : List ℕ)
    → IsIndexed c
    → numbers k c.entries ≡ n ∷ ns
    → IsIndexed (remove c k n)
unfolding remove
remove-IsIndexed c k n ns h e = record {
  indexed = λ j.
      occurrences-put k j _ c.by_key h.clean
      ∙ rw
          (h.indexed k, h.indexed j, e, remove_first_head n ns, pop_entry-oldest k n ns c.entries e)
          (sym (numbers-drop_oldest k j n ns c.entries e));
  clean = IsClean-put k _ c.by_key h.clean;
  distinct =
      rw (pop_entry-oldest k n ns c.entries e) (IsDistinct-drop_oldest k c.entries h.distinct);
}

pub remove-Holds :
    (c : StaleReadCache) (k : CacheKey) (n : ℕ) (ns : List ℕ)
    → IsIndexed c
    → numbers k c.entries ≡ n ∷ ns
    → Holds (drop_oldest k c.entries) c (remove c k n)
unfolding remove
remove-Holds c k n ns h e = record {
  valid = remove-IsIndexed c k n ns h e;
  entries = remove-entries c k n ns e;
  limits = record {
    per_fingerprint = refl;
    total_limit = refl;
    include_params = refl;
    max_intervention_rows = refl;
  };
}

-- A result under a new occurrence comes last.
put-entries :
    (c : StaleReadCache) (k : CacheKey) (n : ℕ) (r : LogicalResult)
    → find_entry k n c.entries ≡ none
    → (put c k n r).entries ≡ c.entries ++ (record { key = k; occurrence = n; result = r }) ∷ []
unfolding put
put-entries c k n r fresh =
    put_entry-new (record { key = k; occurrence = n; result = r }) c.entries fresh

same_numbers :
    (k j : CacheKey) (n : ℕ) (l : List StaleEntry)
    → (if key_eq k j then numbers k l ++ n ∷ [] else numbers j l)
      ≡ (if key_eq k j then numbers j l ++ n ∷ [] else numbers j l)
same_numbers k j n l = elim (Bool-cases (key_eq k j)) [
  | inl e ↦ rw e (ap (λ i. numbers i l ++ n ∷ []) (key_eq_sound k j e))
  | inr e ↦ rw e refl
]

put-IsIndexed :
    (c : StaleReadCache) (k : CacheKey) (n : ℕ) (r : LogicalResult)
    → IsIndexed c
    → find_entry k n c.entries ≡ none
    → IsIndexed (put c k n r)
unfolding put
put-IsIndexed c k n r h fresh =
    let e : StaleEntry = record { key = k; occurrence = n; result = r } in
    record {
      indexed = λ j.
          occurrences-put k j _ c.by_key h.clean
          ∙ rw
              (
                put_entry-new e c.entries fresh,
                numbers-append j c.entries e,
                h.indexed k,
                h.indexed j,
              )
              (same_numbers k j n c.entries);
      clean = IsClean-put k _ c.by_key h.clean;
      distinct =
          rw (put_entry-new e c.entries fresh) (IsDistinct-append c.entries e h.distinct fresh);
    }

pub put-Holds :
    (c : StaleReadCache) (k : CacheKey) (n : ℕ) (r : LogicalResult)
    → IsIndexed c
    → find_entry k n c.entries ≡ none
    → Holds (c.entries ++ (record { key = k; occurrence = n; result = r }) ∷ []) c (put c k n r)
unfolding put
put-Holds c k n r h fresh = record {
  valid = put-IsIndexed c k n r h fresh;
  entries = put-entries c k n r fresh;
  limits = record {
    per_fingerprint = refl;
    total_limit = refl;
    include_params = refl;
    max_intervention_rows = refl;
  };
}
