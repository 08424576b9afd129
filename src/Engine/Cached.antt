-- ===== src/Engine/Cached.antt =====
-- The stale cache of a session (core/stale_cache.py and proxy/connection.py of src/dogdb): the
-- occurrences that `begin` counts make every result that is cached a new one.
pub mod Leads
pub mod History
pub mod Calls
use mathlib.Core.Option
use mathlib.Core.Path.{subst}
use dogdb.Prelude.{
  ℕ, suc, ◌+◌, ◌≤◌, ◌<◌, ◌≡◌, ◌≢◌, refl, sym, ap, ◌∙◌, String, Bool, true, false, Option, none,
  some, List, [], ◌∷◌, ◌++◌, All, All-append, str_eq, eq_iff, if◌then◌else◌, ltb, length, arith,
  Bool-cases, inl, inr,
}
use dogdb.Prelude.Dict.{Dict, lookup, insert, lookup-insert}
use dogdb.Models.{LogicalResult, Decision}
use dogdb.Stats.{count_at}
use dogdb.StaleCache
use dogdb.StaleCache.{StaleEntry, StaleReadCache, CacheKey, entry_at, find_entry, key_for}
use dogdb.StaleCache.Entries.{entry_at_sound}
use dogdb.StaleCache.Added.{entry_of}
use dogdb.StaleCache.Refines.{Tracks, note, add-Tracks}
use dogdb.Session.{Session}
use dogdb.Exec.{Exec}
use dogdb.Exec.Keeps.{Keeps}
use dogdb.Engine.Step.{
  uncounted, Step, Reach, here, next, log, hide, give_back, give_all_back, release, schedule,
  cancel, advance, cache, mood, stats, occur, tick, sleep, warn, backend,
}

-- The entry's occurrence has been counted.
abbrev pub IsCounted : Dict ℕ → StaleEntry → Type 0
IsCounted m e = e.occurrence ≤ count_at e.key.template m

-- The cache keeps what a cache with the limits of `o` keeps of results whose occurrences have been
-- counted.
pub record IsFilled (o : StaleReadCache) (m : Dict ℕ) (c : StaleReadCache) : Type 0 where
  pub given : List StaleEntry
  pub tracks : Tracks o given c
  pub counted : All (IsCounted m) given

abbrev pub FilledIf : StaleReadCache → Dict ℕ → Option StaleReadCache → Type 0
FilledIf o m none = Unit
FilledIf o m (some c) = IsFilled o m c

-- The cache of the session, if it has one.
abbrev pub IsCached : StaleReadCache → Session → Type 0
IsCached o s = FilledIf o s.occurrences s.stale_cache

-- An entry of the template has an occurrence before the n-th.
abbrev IsBefore : String → ℕ → StaleEntry → Type 0
IsBefore template n e = e.key.template ≡ template → e.occurrence < n

-- The n-th occurrence of the template has begun, and has no result yet.
pub record IsBegun (o : StaleReadCache) (template : String) (n : ℕ) (m : Dict ℕ)
    (c : StaleReadCache) : Type 0 where
  pub given : List StaleEntry
  pub tracks : Tracks o given c
  pub counted : All (IsCounted m) given
  pub before : All (IsBefore template n) given
  pub count : count_at template m ≡ n

abbrev pub BegunIf : StaleReadCache → String → ℕ → Dict ℕ → Option StaleReadCache → Type 0
BegunIf o template n m none = Unit
BegunIf o template n m (some c) = IsBegun o template n m c

abbrev pub HasBegun : StaleReadCache → String → ℕ → Session → Type 0
HasBegun o template n s = BegunIf o template n s.occurrences s.stale_cache

filled_of_begun :
    (o : StaleReadCache) (t : String) (n : ℕ) (m : Dict ℕ) (c : Option StaleReadCache)
    → BegunIf o t n m c
    → FilledIf o m c
filled_of_begun o t n m none h = tt
filled_of_begun o t n m (some c) h = record {
  given = h.given;
  tracks = h.tracks;
  counted = h.counted;
}

pub HasBegun-IsCached :
    (o : StaleReadCache) (t : String) (n : ℕ) (s : Session) → HasBegun o t n s → IsCached o s
HasBegun-IsCached o t n s h = filled_of_begun o t n s.occurrences s.stale_cache h

count_at-insert :
    (t u : String) (n : ℕ) (m : Dict ℕ)
    → count_at u (insert t n m) ≡ (if str_eq t u then n else count_at u m)
count_at-insert t u n m = ground (arith, lookup-insert t u n m)

-- Counting one more occurrence of the template.
IsCounted-begin :
    (t : String) (m : Dict ℕ) (l : List StaleEntry)
    → All (IsCounted m) l
    → All (IsCounted (insert t (count_at t m + 1) m)) l × All (IsBefore t (count_at t m + 1)) l
IsCounted-begin t m [] h = (tt, tt)
IsCounted-begin t m (e ∷ l) h =
    let (a, b) = IsCounted-begin t m l h.1 in
    let grown : e.occurrence ≤ count_at e.key.template (insert t (count_at t m + 1) m) =
      elim (Bool-cases (str_eq t e.key.template)) [
        | inl same ↦
            rw (count_at-insert t e.key.template (count_at t m + 1) m, same)
              (omega (arith, h.0, ap (λ u. count_at u m) ((eq_iff t e.key.template).0 same)))
        | inr other ↦ rw (count_at-insert t e.key.template (count_at t m + 1) m, other) h.0
      ] in
    ((grown, a), (λ q. omega (arith, h.0, ap (λ u. count_at u m) q), b))

begun :
    (o : StaleReadCache) (t : String) (m : Dict ℕ) (c : Option StaleReadCache)
    → FilledIf o m c
    → BegunIf o t (count_at t m + 1) (insert t (count_at t m + 1) m) c
begun o t m none h = tt
begun o t m (some c) h =
    let (counted, before) = IsCounted-begin t m h.given h.counted in
    record {
      given = h.given;
      tracks = h.tracks;
      counted = counted;
      before = before;
      count = count_at-insert t t (count_at t m + 1) m ∙ rw ((eq_iff t t).1 refl) refl;
    }

-- A result whose occurrence is after all that were given comes as a new one.
new_result :
    (k : CacheKey) (n : ℕ) (l : List StaleEntry)
    → All (IsBefore k.template n) l
    → find_entry k n l ≡ none
unfolding find_entry
new_result k n [] h = refl
new_result k n (e ∷ l) h = elim (Bool-cases (entry_at k n e)) [
  | inr other ↦ rw other (new_result k n l h.1)
  | inl same ↦
      let (key, occurrence) = entry_at_sound k n e same in
      absurd (omega (arith, h.0 (ap (λ j. j.template) key), occurrence))
]

note-IsCounted :
    (o : StaleReadCache) (m : Dict ℕ) (l : List StaleEntry) (d : Decision) (r : LogicalResult)
    → All (IsCounted m) l
    → count_at d.template_fingerprint m ≡ d.occurrence
    → All (IsCounted m) (note o l d r)
unfolding note
note-IsCounted o m l d r h count = elim (Bool-cases (ltb o.max_intervention_rows (length r.rows))) [
  | inl long ↦ rw long h
  | inr fits ↦
      rw fits (All-append (IsCounted m) l (entry_of o d r ∷ []) h (omega (arith, count), tt))
]

add-begun :
    (o : StaleReadCache) (m : Dict ℕ) (d : Decision) (r : LogicalResult) (c : Option StaleReadCache)
    → 0 < o.per_fingerprint
    → BegunIf o d.template_fingerprint d.occurrence m c
    → FilledIf o m (Option.map (λ k. (StaleCache.add k d r).0) c)
add-begun o m d r none pos h = tt
add-begun o m d r (some c) pos h = record {
  given = note o h.given d r;
  tracks =
      add-Tracks o c h.given d r pos h.tracks
        (new_result (key_for o d) d.occurrence h.given h.before);
  counted = note-IsCounted o m h.given d r h.counted h.count;
}

not_allowed : false ≢ true
not_allowed e = cc

-- The parts of a session that an invariant of the cache is about.
record Same (s t : Session) : Type 0 where
  stale_cache : t.stale_cache ≡ s.stale_cache
  occurrences : t.occurrences ≡ s.occurrences

Same-step : {s t : Session} → Step uncounted s t → Same s t
Same-step (cache q d r) = absurd (not_allowed q)
Same-step (occur q t) = absurd (not_allowed q)
Same-step (log _ _) = record { stale_cache = refl; occurrences = refl }
Same-step (hide _ _ _ _) = record { stale_cache = refl; occurrences = refl }
Same-step (give_back _ _ _ _ _) = record { stale_cache = refl; occurrences = refl }
Same-step (give_all_back _ _) = record { stale_cache = refl; occurrences = refl }
Same-step (release _) = record { stale_cache = refl; occurrences = refl }
Same-step (schedule _ _ _) = record { stale_cache = refl; occurrences = refl }
Same-step (cancel _) = record { stale_cache = refl; occurrences = refl }
Same-step (advance _) = record { stale_cache = refl; occurrences = refl }
Same-step (mood _ _) = record { stale_cache = refl; occurrences = refl }
Same-step (stats _) = record { stale_cache = refl; occurrences = refl }
Same-step (tick _ _) = record { stale_cache = refl; occurrences = refl }
Same-step (sleep _) = record { stale_cache = refl; occurrences = refl }
Same-step (warn _) = record { stale_cache = refl; occurrences = refl }
Same-step backend = record { stale_cache = refl; occurrences = refl }

Same-Reach : {s t : Session} → Reach uncounted s t → Same s t
Same-Reach here = record { stale_cache = refl; occurrences = refl }
Same-Reach (next r st) =
    let a = Same-Reach r in
    let b = Same-step st in
    record {
      stale_cache = b.stale_cache ∙ a.stale_cache;
      occurrences = b.occurrences ∙ a.occurrences;
    }

-- An invariant of the cache and of the counts is kept by what touches neither.
abbrev pub OfCache : (Dict ℕ → Option StaleReadCache → Type 0) → Session → Type 0
OfCache P s = P s.occurrences s.stale_cache

pub Keeps-inner :
    {A : Type 0} (P : Dict ℕ → Option StaleReadCache → Type 0) (m : Exec Session A)
    → ((o : Session) → Keeps (Reach uncounted o) m)
    → Keeps (OfCache P) m
Keeps-inner P m k = record {
  at = λ s h.
      let same = Same-Reach ((k s).at s here) in
      subst (λ x. P x (m s).1.stale_cache) (sym same.occurrences)
        (subst (λ x. P s.occurrences x) (sym same.stale_cache) h);
}
