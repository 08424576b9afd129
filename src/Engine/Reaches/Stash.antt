-- ===== src/Engine/Reaches/Stash.antt =====
-- `_stash` of core/faults.py in src/dogdb is a sequence of steps: the treasure enters the house with
-- the event that reports it.
use dogdb.Prelude.{ℕ, ◌≡◌, refl, false, Bool-cases, Option-cases, inl, inr, get_elem?}
use dogdb.Models.{Decision, LogicalResult, Row}
use dogdb.Platform.{Platform, IsDigest}
use dogdb.Platform.Ids.{deterministic_id_named}
use dogdb.EventLog.{Event, stamp}
use dogdb.House.{add, refuses}
use dogdb.Policy.{Mode, quiet, error}
use dogdb.Session.{Config, Session}
use dogdb.Exec.{exec, index, continue, ◌>>=◌}
use dogdb.Exec.Keeps.{Keeps-pure, Keeps-bind}
use dogdb.Engine.Step.{Part, Reach, next, Step}
use dogdb.Engine.Reaches.{Reaches, Reaches-derived_index, Reaches-raise_from_event}
use dogdb.Stats.{record_intervention}
use dogdb.Faults.Record.{event_id_at}
use dogdb.Faults.Stashed.{
  taxonomy_of-stash, stash_event, event-stash, treasure, add-accepts, add-declines,
}
use dogdb.Faults.Inject.{
  finish_stash, stash_outcome, stash_details, add_treasure, schedule_return, stashed,
  treasure_id_at, inject_stash, offer,
}

module _ {part : Part} {o : Session} where
  Reaches-finish_stash :
      (m : Mode) (e : Event) (result : LogicalResult) (i : ℕ)
      → Reaches part o (finish_stash m e result i)
  unfolding finish_stash
  Reaches-finish_stash quiet e result i = Keeps-pure _
  Reaches-finish_stash error e result i = Reaches-raise_from_event _ _ _ _

module _ (p : Platform) (c : Config) (d : Decision) (result : LogicalResult) (i : ℕ) (row : Row)
    (g : IsDigest p) {part : Part} {o : Session} where
  -- What `_stash` goes on to once the house has accepted the treasure.
  Reach-stashed :
      (s : Session)
      → refuses s.house (treasure p c d i row s) ≡ false
      → Reach part o s
      → Reach part o
          (stashed p c d result i
            (treasure_id_at p d i)
            (record s { house = (add s.house (treasure p c d i row s)).0 })).1
  unfolding stashed schedule_return exec
  Reach-stashed s fresh r =
      let (t, known) = taxonomy_of-stash c.policy in
      let id = treasure_id_at p d i in
      let m = c.policy.stash_mode in
      let e = stash_event p d (stash_outcome m) (stash_details i id) t s in
      rw (event-stash p c d (stash_outcome m) (stash_details i id) t _ known) (
        (Reaches-finish_stash m (stamp s.events e) result i).at _ (
          next
            (next (next r (Step.schedule p id d.decision_key)) (
              Step.hide (treasure p c d i row s) e fresh (record {
                named = deterministic_id_named p g _ _;
                event_type = refl;
                fault = refl;
                template = refl;
                event_id = refl;
                details = refl;
                whole = (tt, (tt, tt, tt, tt, tt, tt));
              })))
            (Step.stats (record_intervention s.stats d.template_fingerprint))))

module _ (p : Platform) (c : Config) (d : Decision) (result : LogicalResult) (g : IsDigest p)
    {part : Part} {o : Session} where
  Reach-offer :
      (i : ℕ) (row : Row) (s : Session)
      → Reach part o s
      → Reach part o (offer p c d result i row (event_id_at p s.events d.decision_key "STASH") s).1
  unfolding offer add_treasure exec
  Reach-offer i row s r = elim (Bool-cases (refuses s.house (treasure p c d i row s))) [
    | inl full ↦ rw (add-declines _ _ full) r
    | inr fresh ↦ rw (add-accepts _ _ fresh) (Reach-stashed p c d result i row g s fresh r)
  ]

  Reach-from_row :
      (i : ℕ) (s : Session)
      → Reach part o s
      → Reach part o
          (continue
            (index result.rows i s).0
            (λ row. offer p c d result i row (event_id_at p s.events d.decision_key "STASH"))
            (index result.rows i s).1).1
  unfolding exec
  Reach-from_row i s r = elim (Option-cases (get_elem? result.rows i)) [
    | inl e ↦ rw (e, index) r
    | inr (row, e) ↦ rw (e, index) (Reach-offer i row s r)
  ]

  -- The whole of `_stash`.
  pub Reaches-inject_stash : Reaches part o (inject_stash p c d result)
  unfolding inject_stash ◌>>=◌
  Reaches-inject_stash =
      Keeps-bind _ _ (Reaches-derived_index _ _ _ _) (λ i. record { at = Reach-from_row i })
