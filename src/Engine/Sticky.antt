-- ===== src/Engine/Sticky.antt =====
-- STASH over two queries (core/faults.py and core/house.py of src/dogdb): the row that was hidden
-- stays hidden.
use dogdb.Prelude.{
  ℕ, zero, suc, ◌+◌, ◌<◌, ◌≡◌, ◌≢◌, refl, sym, ap, ◌∙◌, String, Bool, true, false, none, List, [],
  ◌∷◌, ◌++◌, ◌==◌, eq_iff, str_eq, select, length, take, drop, get_elem?, arith, Bool-cases,
  Option-cases, inl, inr, select-append, ltb,
}
use dogdb.Prelude.Dict.{Dict, lookup, insert, values}
use dogdb.Models.{Decision, LogicalResult, Row, no_drop, on_result}
use dogdb.Platform.{Platform}
use dogdb.House.{HouseLedger, Treasure, active_for, sort_by_row, insert_sorted, refuses, add}
use dogdb.Policy.{quiet}
use dogdb.Session.{Config, Session}
use dogdb.Exec.{exec, Result, ok, continue, index}
use dogdb.Platform.{derived_index}
use dogdb.Faults.Rows.{remove_at, hide_rows}
use dogdb.Faults.Record.{event_id_at}
use dogdb.Faults.Inject.{
  with_rows, add_treasure, schedule_return, stashed, finish_stash, offer, inject_stash,
}
use dogdb.Faults.OnResult.{
  run_on_result, on_result_of, on_result_within, respond, reveal, on_result_sticky, row_indices,
}
use dogdb.Faults.{select_candidate}
use dogdb.Sql.{SqlKind, SqlClassification}
use dogdb.Faults.Stashed.{taxonomy_of-stash, treasure, event-stash, add-accepts, add-declines}

-- The rows behind a hidden one.
hide_after : (i k : ℕ) (l : List Row) → i < k → hide_rows (i ∷ []) k l ≡ l
unfolding hide_rows
hide_after i k [] h = refl
hide_after i k (r ∷ l) h = ground (arith, hide_after i (suc k) l)

-- To hide one row is to leave it out.
hide_one :
    (i j k : ℕ) (l : List Row) → j ≡ i + k → hide_rows (j ∷ []) k l ≡ take i l ++ drop (suc i) l
unfolding hide_rows
hide_one zero j k [] h = refl
hide_one (suc i) j k [] h = refl
hide_one zero j k (r ∷ l) h = ground (arith, hide_after j (suc k) l)
hide_one (suc i) j k (r ∷ l) h = ground (arith, hide_one i j (suc k) l (omega (arith, h)))

hide_one-remove_at : (i j : ℕ) (l : List Row) → j ≡ i → hide_rows (j ∷ []) 0 l ≡ remove_at i l
unfolding remove_at
hide_one-remove_at i j l h =
    let next : suc i ≡ i + 1 = omega arith in
    hide_one i j 0 l (omega (arith, h)) ∙ ap (λ n. take i l ++ drop n l) next

insert_sorted-ne : (t : Treasure) (l : List Treasure) → insert_sorted t l ≢ []
unfolding insert_sorted
insert_sorted-ne t [] e = cc
insert_sorted-ne t (u ∷ l) e = ground (arith, e)

sort_by_row-nil : (l : List Treasure) → sort_by_row l ≡ [] → l ≡ []
unfolding sort_by_row
sort_by_row-nil [] h = refl
sort_by_row-nil (t ∷ l) h = absurd (insert_sorted-ne t (sort_by_row l) h)

values-insert_new :
    {V : Type 0} (k : String) (v : V) (m : Dict V)
    → lookup k m ≡ none
    → values (insert k v m) ≡ values m ++ v ∷ []
unfolding insert
values-insert_new k v [] h = refl
values-insert_new k v ((j, w) ∷ m) h = ground (arith, h, values-insert_new k v m)

-- A template of which the house has no row has one once the house has taken a treasure of it.
active_for-add :
    (h : HouseLedger) (t : Treasure) (template : String)
    → refuses h t ≡ false
    → t.template_fingerprint ≡ template
    → active_for h template ≡ []
    → active_for (add h t).0 template ≡ t ∷ []
unfolding active_for add refuses sort_by_row insert_sorted
active_for-add h t template fresh same none_yet =
    let of_template : Treasure → Bool = λ u. str_eq u.template_fingerprint template in
    let absent : lookup t.treasure_id h.treasures ≡ none = ground (arith, fresh) in
    let others : select of_template (values h.treasures) ≡ [] = sort_by_row-nil _ none_yet in
    let named : str_eq t.template_fingerprint template ≡ true =
      ground (arith, eq_iff t.template_fingerprint template, same) in
    rw
      (
        fresh,
        values-insert_new t.treasure_id t h.treasures absent,
        select-append of_template (values h.treasures) (t ∷ []),
        others,
        named,
      )
      refl

module _ (p : Platform) (c : Config) (d : Decision) (result : LogicalResult) where
  -- The result lacks a row, and the house has that row as the only one of the template.
  abbrev Hides : Result LogicalResult × Session → Type 0
  Hides (r, s) =
      (i : ℕ) × (t : Treasure) × (t.row_index ≡ i)
      × (r ≡ ok (with_rows result (remove_at i result.rows)))
      × (active_for s.house d.template_fingerprint ≡ t ∷ [])

  module _ (mode : c.policy.stash_mode ≡ quiet) (s : Session)
      (before : active_for s.house d.template_fingerprint ≡ []) where
    offer-Hides :
        (i : ℕ) (row : Row)
        → let r = offer p c d result i row (event_id_at p s.events d.decision_key "STASH") s in
          active_for r.1.house d.template_fingerprint ≢ [] → Hides r
    unfolding offer add_treasure stashed schedule_return finish_stash exec
    offer-Hides i row = elim (Bool-cases (refuses s.house (treasure p c d i row s))) [
      | inl full ↦ rw (add-declines _ _ full) (λ changed. absurd (changed before))
      | inr fresh ↦
          let (t, known) = taxonomy_of-stash c.policy in
          rw (add-accepts _ _ fresh, event-stash p c d _ _ t _ known, mode)
            (λ changed. (
              i,
              treasure p c d i row s,
              refl,
              refl,
              active_for-add s.house (treasure p c d i row s) _ fresh refl before,
            ))
    ]

    from_row-Hides :
        (i : ℕ)
        → let r =
            continue
              (index result.rows i s).0
              (λ row. offer p c d result i row (event_id_at p s.events d.decision_key "STASH"))
              (index result.rows i s).1 in
          active_for r.1.house d.template_fingerprint ≢ [] → Hides r
    unfolding exec
    from_row-Hides i = elim (Option-cases (get_elem? result.rows i)) [
      | inl e ↦ rw (e, index) (λ changed. absurd (changed before))
      | inr (row, e) ↦ rw (e, index) (offer-Hides i row)
    ]

    inject_stash-Hides :
        active_for (inject_stash p c d result s).1.house d.template_fingerprint ≢ []
        → Hides (inject_stash p c d result s)
    unfolding inject_stash derived_index exec
    inject_stash-Hides = elim (Bool-cases (length result.rows == 0)) [
      | inl e ↦ rw e (λ changed. absurd (changed before))
      | inr e ↦ rw e (from_row-Hides _)
    ]

-- A query of which the house has one row gets the result without it, and the house keeps the row.
Hides-one :
    (p : Platform) (c : Config) (k : SqlClassification) (d : Decision) (result : LogicalResult)
    (s : Session) (t : Treasure)
    → k.kind ≡ SqlKind.select
    → ltb c.max_intervention_rows (length result.rows) ≡ false
    → select_candidate p c.policy s.mood d (no_drop ∷ []) on_result ≡ none
    → active_for s.house d.template_fingerprint ≡ t ∷ []
    → ((run_on_result p c k d result s).0
        ≡ ok (with_rows result (hide_rows (t.row_index ∷ []) 0 result.rows)))
      × ((run_on_result p c k d result s).1.house ≡ s.house)
unfolding run_on_result on_result_of on_result_within respond reveal on_result_sticky row_indices
    exec
Hides-one p c k d result s t kind small kept one = rw (kind, small, kept, one) (refl, refl)

-- What STASH hides stays hidden, under its quiet mode. From a state in which the house has no row of
-- a template, let `_stash` leave a row of it in the house. Then a later decision of the template for
-- a SELECT, in any state with that house in which NO_DROP is not selected, gets for the same result
-- of the backend, if that is within the limit, what `_stash` gave, and leaves the house as it is.
pub stash_sticks :
    (p : Platform) (c : Config) (k : SqlClassification) (result : LogicalResult)
    (d later : Decision) (s after : Session)
    → c.policy.stash_mode ≡ quiet
    → active_for s.house d.template_fingerprint ≡ []
    → active_for (inject_stash p c d result s).1.house d.template_fingerprint ≢ []
    → k.kind ≡ SqlKind.select
    → ltb c.max_intervention_rows (length result.rows) ≡ false
    → later.template_fingerprint ≡ d.template_fingerprint
    → after.house ≡ (inject_stash p c d result s).1.house
    → select_candidate p c.policy after.mood later (no_drop ∷ []) on_result ≡ none
    → ((run_on_result p c k later result after).0 ≡ (inject_stash p c d result s).0)
      × ((run_on_result p c k later result after).1.house ≡ after.house)
stash_sticks p c k result d later s after mode before changed kind small same kept_house kept =
    let (i, t, at, first, one) = inject_stash-Hides p c d result mode s before changed in
    let (second, unchanged) = Hides-one p c k later result after t kind small kept (
      ap (active_for after.house) same
      ∙ (ap (λ h. active_for h d.template_fingerprint) kept_house ∙ one)) in
    (
      second
          ∙ (ap (λ l. ok (with_rows result l)) (hide_one-remove_at i t.row_index result.rows at)
              ∙ sym first),
      unchanged,
    )
