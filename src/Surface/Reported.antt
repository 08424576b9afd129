-- ===== src/Surface/Reported.antt =====
-- The row counts that CursorProxy (proxy/connection.py of src/dogdb) reports, and the end of a `with`
-- block of SQLiteProxy.
use mathlib.Core.List.{append_assoc}
use mathlib.Core.Path.{subst}
use dogdb.Prelude.{sym, ◌≡◌, refl, ap, ◌∙◌, true, false, String, List, [], ◌∷◌, ◌++◌, drop, length}
use dogdb.Platform.{Platform, IsDigest}
use dogdb.Models.{LogicalResult, Error}
use dogdb.EventLog.{Event}
use dogdb.Session.{Config, Session}
use dogdb.Exec.{Result, ok, err, exec, continue, gets, pure, raise, ◌>>=◌}
use dogdb.Engine.{Params, World}
use dogdb.Engine.Execute.{execute}
use dogdb.Engine.Step.{whole, here}
use dogdb.Engine.Reaches.Execute.{Reaches-execute}
use dogdb.Engine.Logged.{Extends-Reach}
use dogdb.Surface.{opened}
use dogdb.Surface.Cursor.{
  CursorProxy, cursor_execute, reported, Answers, Action, commit, rollback, exit, ask, or_roll_back,
}
use dogdb.Surface.Shown.{IsCount, reported-IsCount}

drop-append {ℓ} : {A : Type ℓ} (l m : List A) → drop (length l) (l ++ m) ≡ m
drop-append [] m = refl
drop-append (a ∷ l) m = drop-append l m

-- The outcome of a call of a cursor, by that of the engine.
abbrev pub IsAnswered : List Event → Result LogicalResult → Result CursorProxy → Type 0
IsAnswered l (ok r) answer =
    (cur : CursorProxy) × (answer ≡ ok cur)
    × (cur.surface ≡ record { result = r; offset = 0 })
    × IsCount l r cur.reported_rowcount
IsAnswered l (err e) answer = answer ≡ err e

-- The rest of the call, after the engine.
after_engine :
    (old added : List Event) (r : Result LogicalResult) (t : Session)
    → t.events.events ≡ old ++ added
    → let out =
        continue {B = CursorProxy} r
          (λ result. gets (λ u. u.events.events) >>= λ events. pure (record {
            surface = opened result;
            reported_rowcount = reported (drop (length old) events) result;
          }))
          t in
      (out.1 ≡ t) × IsAnswered added r out.0
unfolding exec
after_engine old added (err e) t h = (refl, refl)
after_engine old added (ok r) t h =
    let new_events = ap (drop (length old)) h ∙ drop-append old added in
    (
      refl,
      (
        _,
        refl,
        refl,
        subst (λ l. IsCount added r (reported l r)) (sym new_events) (reported-IsCount added r),
      ),
    )

-- Whatever the statement and the session: the log after the call is the one before it with events
-- added, and the session is the engine's. If the engine raises, the call of the cursor raises the
-- same. If not, the cursor stands before the first row of the engine's result; it reports the row
-- count of the result if one of the added events is an injection of FALSE_EMPTY, TAIL_CHASE,
-- PAGE_HOLE, ECHO or WRONG_COUNT, or if the result has no columns, and -1 if neither is so.
pub cursor_execute-reported :
    (p : Platform) (c : Config) (w : World)
    → IsDigest p
    → (sql : String) (params : Params) (s : Session)
    → (added : List Event) × ((execute p c w sql params s).1.events.events
        ≡ s.events.events ++ added)
      × ((cursor_execute p c w sql params s).1 ≡ (execute p c w sql params s).1)
      × IsAnswered added (execute p c w sql params s).0 (cursor_execute p c w sql params s).0
unfolding exec cursor_execute
cursor_execute-reported p c w g sql params s =
    let (added, grown) =
      Extends-Reach ((Reaches-execute p c w g {part = whole} refl refl sql params).at s here) in
    let (same, answered) =
      after_engine s.events.events added (execute p c w sql params s).0
        (execute p c w sql params s).1 grown in
    (added, grown, same, answered)

-- The end of a block that did not raise.
abbrev pub answer_of : Answers → Result (Unit {0})
answer_of a = elim a.commit_answer [
  | ok u ↦ ok tt
  | err e ↦ (elim a.rollback_answer [ ok u ↦ err e | err f ↦ err f ])
]

abbrev pub asked : Answers → List Action
asked a = elim a.commit_answer [ ok u ↦ commit ∷ [] | err e ↦ commit ∷ rollback ∷ [] ]

rolled_back :
    (b : Result (Unit {0})) (e : Error) (s : List Action)
    → continue {B = Unit {0}} b (λ u. raise e) s ≡ (elim b [ ok u ↦ err e | err f ↦ err f ], s)
unfolding raise
rolled_back (ok u) e s = refl
rolled_back (err f) e s = refl

after_commit :
    (a : Answers) (r : Result (Unit {0})) (s : List Action)
    → or_roll_back a r (s ++ commit ∷ []) ≡ (
      elim r [ ok u ↦ ok tt | err e ↦ (elim a.rollback_answer [ ok u ↦ err e | err f ↦ err f ]) ],
      s ++ (elim r [ ok u ↦ commit ∷ [] | err e ↦ commit ∷ rollback ∷ [] ]),
    )
unfolding exec or_roll_back ask
after_commit a (ok u) s = refl
after_commit a (err e) s =
    rolled_back a.rollback_answer e ((s ++ commit ∷ []) ++ rollback ∷ [])
    ∙ ap (λ l. (elim a.rollback_answer [ ok u ↦ err e | err f ↦ err f ], l))
        (append_assoc s (commit ∷ []) (rollback ∷ []))

-- A `with` block ends in one of these ways. If the block raised, it asks the connection for a rollback
-- and for no commit. If it did not, it asks for a commit; if that is refused, it asks for a rollback
-- too and raises what refused the commit, or what refused the rollback if that is refused as well.
pub exit_lem :
    (a : Answers) (s : List Action)
    → (exit true a s ≡ (a.rollback_answer, s ++ rollback ∷ []))
      × (exit false a s ≡ (answer_of a, s ++ asked a))
unfolding exec exit ask
exit_lem a s = (refl, after_commit a a.commit_answer s)
