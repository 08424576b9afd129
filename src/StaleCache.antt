-- ===== src/StaleCache.antt =====
-- core/stale_cache.py of src/dogdb: the bounded cache of the results that a client was given.
pub mod Bounds
pub mod Keys
pub mod Refines
pub mod Newest
pub mod Window
pub mod Added
pub mod Recent
pub mod Trimmed
pub mod Indexed
pub mod Entries
use dogdb.Prelude.{
  ℕ, zero, suc, String, Bool, true, false, ◌&&◌, Option, none, some, List, [], ◌∷◌, ◌++◌, ◌==◌, ltb,
  leb, str_eq, if◌then◌else◌, length,
}
use dogdb.Models.{LogicalResult, Decision, key_error}
use dogdb.Exec.{ok, err, Result}

-- CacheKey
pub record CacheKey : Type 0 where
  pub template : String
  pub parameter : Option String

abbrev pub option_eq : Option String → Option String → Bool
option_eq none none = true
option_eq (some a) (some b) = str_eq a b
option_eq _ _ = false

abbrev pub key_eq : CacheKey → CacheKey → Bool
key_eq a b = str_eq a.template b.template && option_eq a.parameter b.parameter

-- An entry is also its own key of `_entries`: (key, occurrence).
pub record StaleEntry : Type 0 where
  pub key : CacheKey
  pub occurrence : ℕ
  pub result : LogicalResult

abbrev pub entry_at : CacheKey → ℕ → StaleEntry → Bool
entry_at k n e = key_eq e.key k && e.occurrence == n

pub record StaleReadCache : Type 0 where
  pub include_params : Bool
  pub max_intervention_rows : ℕ
  pub per_fingerprint : ℕ
  pub total_limit : ℕ
  pub entries : List StaleEntry
  pub by_key : List (CacheKey × List ℕ)

-- The cache that `wrap` makes.
abbrev pub new : Bool → ℕ → StaleReadCache
new include_params max_intervention_rows = record {
  include_params = include_params;
  max_intervention_rows = max_intervention_rows;
  per_fingerprint = 4;
  total_limit = 64;
  entries = [];
  by_key = [];
}

abbrev pub key_for : StaleReadCache → Decision → CacheKey
key_for c d = record {
  template = d.template_fingerprint;
  parameter = if c.include_params then some d.parameter_fingerprint else none;
}

-- `_entries` as an ordered dictionary.
unfoldable pub find_entry : CacheKey → ℕ → List StaleEntry → Option StaleEntry
find_entry k n [] = none
find_entry k n (e ∷ l) = if entry_at k n e then some e else find_entry k n l

unfoldable pub put_entry : StaleEntry → List StaleEntry → List StaleEntry
put_entry e [] = e ∷ []
put_entry e (f ∷ l) = if entry_at e.key e.occurrence f then e ∷ l else f ∷ put_entry e l

unfoldable pub pop_entry : CacheKey → ℕ → List StaleEntry → List StaleEntry
pop_entry k n [] = []
pop_entry k n (e ∷ l) = if entry_at k n e then l else e ∷ pop_entry k n l

-- `_by_key`, where a missing key has no occurrences.
unfoldable pub occurrences_at : CacheKey → List (CacheKey × List ℕ) → List ℕ
occurrences_at k [] = []
occurrences_at k ((j, ns) ∷ m) = if key_eq j k then ns else occurrences_at k m

-- An emptied deque is dropped.
abbrev pub keep_nonempty : CacheKey → List ℕ → List (CacheKey × List ℕ) → List (CacheKey × List ℕ)
keep_nonempty k [] m = m
keep_nonempty k (n ∷ ns) m = (k, n ∷ ns) ∷ m

unfoldable pub put_occurrences :
    CacheKey → List ℕ → List (CacheKey × List ℕ) → List (CacheKey × List ℕ)
put_occurrences k ns [] = keep_nonempty k ns []
put_occurrences k ns ((j, ms) ∷ m) =
    if key_eq j k then keep_nonempty j ns m else (j, ms) ∷ put_occurrences k ns m

-- deque.remove, of the first equal element
unfoldable pub remove_first : ℕ → List ℕ → List ℕ
remove_first n [] = []
remove_first n (m ∷ l) = if m == n then l else m ∷ remove_first n l

-- StaleReadCache._remove
unfoldable pub remove : StaleReadCache → CacheKey → ℕ → StaleReadCache
unfolding pop_entry put_occurrences remove_first occurrences_at
remove c k n = record c {
  entries = pop_entry k n c.entries;
  by_key = put_occurrences k (remove_first n (occurrences_at k c.by_key)) c.by_key;
}

-- The list of StaleReadCache.history; a missing entry raises `KeyError`.
unfoldable pub collect : CacheKey → List ℕ → List StaleEntry → Result (List StaleEntry)
unfolding find_entry
collect k [] entries = ok []
collect k (n ∷ ns) entries = elim (find_entry k n entries) [
  | none ↦ err key_error
  | some e ↦ (elim (collect k ns entries) [ ok l ↦ ok (e ∷ l) | err x ↦ err x ])
]

unfoldable pub history : StaleReadCache → Decision → Result (List StaleEntry)
unfolding collect occurrences_at
history c d = collect (key_for c d) (occurrences_at (key_for c d) c.by_key) c.entries

-- The bodies of the two loops of `add`: the oldest occurrence of a key, and the oldest entry.
unfoldable pub remove_occurrence : CacheKey → List ℕ → StaleReadCache → StaleReadCache
unfolding remove
remove_occurrence k [] c = c
remove_occurrence k (n ∷ ns) c = remove c k n

unfoldable pub remove_oldest : List StaleEntry → StaleReadCache → StaleReadCache
unfolding remove
remove_oldest [] c = c
remove_oldest (e ∷ l) c = remove c e.key e.occurrence

-- `while len(self._by_key[key]) >= self.per_fingerprint`, on fuel; the number of the occurrences is
-- enough.
unfoldable pub trim_key : ℕ → CacheKey → StaleReadCache → StaleReadCache
unfolding remove_occurrence
trim_key zero k c = c
trim_key (suc f) k c =
    let rest = trim_key f k (remove_occurrence k (occurrences_at k c.by_key) c) in
    if leb c.per_fingerprint (length (occurrences_at k c.by_key)) then rest else c

-- `while len(self._entries) > self.total_limit`, on fuel; the number of the entries is enough.
unfoldable pub trim_total : ℕ → StaleReadCache → StaleReadCache
unfolding remove_oldest
trim_total zero c = c
trim_total (suc f) c =
    let rest = trim_total f (remove_oldest c.entries c) in
    if ltb c.total_limit (length c.entries) then rest else c

unfoldable pub put : StaleReadCache → CacheKey → ℕ → LogicalResult → StaleReadCache
unfolding put_entry put_occurrences occurrences_at
put c k n result = record c {
  entries = put_entry (record { key = k; occurrence = n; result = result }) c.entries;
  by_key = put_occurrences k (occurrences_at k c.by_key ++ n ∷ []) c.by_key;
}

-- StaleReadCache.add
unfoldable pub add : StaleReadCache → Decision → LogicalResult → StaleReadCache × Bool
unfolding trim_key trim_total put
add c d result =
    if ltb c.max_intervention_rows (length result.rows)
    then (c, false)
    else (let k = key_for c d in
        let trimmed = trim_key (length (occurrences_at k c.by_key)) k c in
        let stored = put trimmed k d.occurrence result in
        (trim_total (length stored.entries) stored, true))
