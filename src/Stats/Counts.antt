-- ===== src/Stats/Counts.antt =====
-- What the counters of core/stats.py of src/dogdb count: the records that were made.
use dogdb.Prelude.{
  ℕ, ◌+◌, String, ◌≡◌, refl, ap, ◌∙◌, Bool, true, false, none, some, List, [], ◌∷◌, if◌then◌else◌,
  str_eq, eq_iff, Bool-cases, inl, inr, Option,
}
use dogdb.Prelude.Dict.{Dict, lookup, insert, lookup-insert}
use dogdb.Sql.{SqlKind}
use dogdb.Stats.{
  Reason, reason_name, FingerprintStats, StatsTracker, new, no_stats, stats_at, count_at, bump,
  record_classification, record_intervention, record_escape_hatch, record_passthrough,
}

-- The calls that a tracker gets.
pub data Record : Type 0 where
  classification : String → SqlKind → Record
  intervention : String → Record
  escape_hatch : String → Record
  passthrough : Reason → Record

abbrev pub apply : StatsTracker → Record → StatsTracker
apply s (classification k kind) = record_classification s k kind
apply s (intervention k) = record_intervention s k
apply s (escape_hatch name) = record_escape_hatch s name
apply s (passthrough reason) = record_passthrough s reason

-- A tracker after the calls, the last of which stands first.
unfoldable pub after : List Record → StatsTracker
unfolding record_classification record_intervention record_escape_hatch record_passthrough
after [] = new
after (r ∷ l) = apply (after l) r

-- What is counted: a SELECT, an unknown statement or an intervention under a fingerprint, an escape
-- hatch or a passthrough under a name.
abbrev pub is_select : String → Record → Bool
is_select k (classification j SqlKind.select) = str_eq j k
is_select k _ = false

abbrev pub is_unknown : String → Record → Bool
is_unknown k (classification j SqlKind.unknown) = str_eq j k
is_unknown k _ = false

abbrev pub is_intervention : String → Record → Bool
is_intervention k (intervention j) = str_eq j k
is_intervention k _ = false

abbrev pub is_escape_hatch : String → Record → Bool
is_escape_hatch k (escape_hatch j) = str_eq j k
is_escape_hatch k _ = false

abbrev pub is_passthrough : String → Record → Bool
is_passthrough k (passthrough r) = str_eq (reason_name r) k
is_passthrough k _ = false

unfoldable pub count : (Record → Bool) → List Record → ℕ
count test [] = 0
count test (r ∷ l) = if test r then count test l + 1 else count test l

-- The counters of a history, by its records alone.
pub record Counts (l : List Record) (s : StatsTracker) : Type 0 where
  pub select : (k : String) → (stats_at k s.by_fingerprint).select ≡ count (is_select k) l
  pub unknown : (k : String) → (stats_at k s.by_fingerprint).unknown ≡ count (is_unknown k) l
  pub interventions :
      (k : String) → (stats_at k s.by_fingerprint).interventions ≡ count (is_intervention k) l
  pub escape_hatches : (k : String) → count_at k s.escape_hatches ≡ count (is_escape_hatch k) l
  pub passthrough : (k : String) → count_at k s.passthrough ≡ count (is_passthrough k) l

pick {ℓ κ} :
    {A : Type ℓ} {B : Type κ} (f : A → B) (b : Bool) (x y : A)
    → f (if b then x else y) ≡ (if b then f x else f y)
pick f true x y = refl
pick f false x y = refl

if_same {ℓ} : {A : Type ℓ} (b : Bool) (x : A) → (if b then x else x) ≡ x
if_same true x = refl
if_same false x = refl

-- A write at j of what g makes of the value there, as a read at k sees it: `value` reads an entry, or
-- its default.
read_write {ℓ} :
    {V : Type ℓ} (value : Option V → ℕ) (g : ℕ → ℕ) (k j : String) (v : V) (m : Dict V)
    → value (some v) ≡ g (value (lookup j m))
    → value (lookup k (insert j v m))
      ≡ (if str_eq j k then g (value (lookup k m)) else value (lookup k m))
read_write value g k j v m h =
    ap value (lookup-insert j k v m)
    ∙ pick value (str_eq j k) (some v) (lookup k m)
    ∙ (elim (Bool-cases (str_eq j k)) [
      | inl e ↦ rw e (h ∙ ap (λ i. g (value (lookup i m))) ((eq_iff j k).0 e))
      | inr e ↦ rw e refl
    ])

-- The value of a field of the default dictionary.
abbrev field_of : (FingerprintStats → ℕ) → Option FingerprintStats → ℕ
field_of field o = field (elim o [ none ↦ no_stats | some v ↦ v ])

abbrev count_of : Option ℕ → ℕ
count_of o = elim o [ none ↦ 0 | some n ↦ n ]

-- A field that a write adds one to, and one that it leaves.
module _ (field : FingerprintStats → ℕ) (k j : String) (v : FingerprintStats)
    (m : Dict FingerprintStats) where
  field-added :
      {n : ℕ}
      → field v ≡ field (stats_at j m) + 1
      → field (stats_at k m) ≡ n
      → field (stats_at k (insert j v m)) ≡ (if str_eq j k then n + 1 else n)
  field-added h e =
      read_write (field_of field) (λ n. n + 1) k j v m h
      ∙ ap (λ n. if str_eq j k then n + 1 else n) e

  field-left :
      {n : ℕ}
      → field v ≡ field (stats_at j m)
      → field (stats_at k m) ≡ n
      → field (stats_at k (insert j v m)) ≡ n
  field-left h e = read_write (field_of field) (λ n. n) k j v m h ∙ if_same (str_eq j k) _ ∙ e

pub count_at-bump :
    (k j : String) (m : Dict ℕ) {n : ℕ}
    → count_at k m ≡ n
    → count_at k (bump j m) ≡ (if str_eq j k then n + 1 else n)
unfolding bump
count_at-bump k j m e =
    read_write count_of (λ n. n + 1) k j (count_at j m + 1) m refl
    ∙ ap (λ n. if str_eq j k then n + 1 else n) e

Counts-classification :
    (l : List Record) (s : StatsTracker) (j : String) (kind : SqlKind)
    → Counts l s
    → Counts (classification j kind ∷ l) (record_classification s j kind)
unfolding record_classification count
Counts-classification l s j SqlKind.select c = record {
  select = λ k. field-added (λ v. v.select) k j _ s.by_fingerprint refl (c.select k);
  unknown = λ k. field-left (λ v. v.unknown) k j _ s.by_fingerprint refl (c.unknown k);
  interventions =
      λ k. field-left (λ v. v.interventions) k j _ s.by_fingerprint refl (c.interventions k);
  escape_hatches = c.escape_hatches;
  passthrough = c.passthrough;
}
Counts-classification l s j SqlKind.unknown c = record {
  select = λ k. field-left (λ v. v.select) k j _ s.by_fingerprint refl (c.select k);
  unknown = λ k. field-added (λ v. v.unknown) k j _ s.by_fingerprint refl (c.unknown k);
  interventions =
      λ k. field-left (λ v. v.interventions) k j _ s.by_fingerprint refl (c.interventions k);
  escape_hatches = c.escape_hatches;
  passthrough = c.passthrough;
}
Counts-classification l s j SqlKind.other c = record {
  select = c.select;
  unknown = c.unknown;
  interventions = c.interventions;
  escape_hatches = c.escape_hatches;
  passthrough = c.passthrough;
}

Counts-apply :
    (r : Record) (l : List Record) (s : StatsTracker) → Counts l s → Counts (r ∷ l) (apply s r)
unfolding record_intervention record_escape_hatch record_passthrough count
Counts-apply (classification j kind) l s c = Counts-classification l s j kind c
Counts-apply (intervention j) l s c = record {
  select = λ k. field-left (λ v. v.select) k j _ s.by_fingerprint refl (c.select k);
  unknown = λ k. field-left (λ v. v.unknown) k j _ s.by_fingerprint refl (c.unknown k);
  interventions =
      λ k. field-added (λ v. v.interventions) k j _ s.by_fingerprint refl (c.interventions k);
  escape_hatches = c.escape_hatches;
  passthrough = c.passthrough;
}
Counts-apply (escape_hatch j) l s c = record {
  select = c.select;
  unknown = c.unknown;
  interventions = c.interventions;
  escape_hatches = λ k. count_at-bump k j s.escape_hatches (c.escape_hatches k);
  passthrough = c.passthrough;
}
Counts-apply (passthrough r) l s c = record {
  select = c.select;
  unknown = c.unknown;
  interventions = c.interventions;
  escape_hatches = c.escape_hatches;
  passthrough = λ k. count_at-bump k (reason_name r) s.passthrough (c.passthrough k);
}

-- After any calls, each counter is the number of the calls that it counts: of SELECTs, of unknown
-- statements and of interventions under each fingerprint, of escape hatches and of passthroughs under
-- each name.
pub after-Counts : (l : List Record) → Counts l (after l)
unfolding after count
after-Counts [] = record {
  select = λ k. refl;
  unknown = λ k. refl;
  interventions = λ k. refl;
  escape_hatches =
      λ k. pick count_of (str_eq "other" k) (some 0) none ∙ if_same (str_eq "other" k) 0;
  passthrough = λ k. refl;
}
after-Counts (r ∷ l) = Counts-apply r l (after l) (after-Counts l)
