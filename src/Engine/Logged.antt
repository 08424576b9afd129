-- ===== src/Engine/Logged.antt =====
-- The event log of a session (core/event_log.py of src/dogdb): the numbers of its events, over the
-- steps of a session.
use dogdb.Prelude.{
  ℕ, suc, ◌+◌, String, ◌≡◌, refl, sym, ap, ◌∙◌, List, [], ◌∷◌, ◌++◌, length, length-append, arith,
}
use dogdb.EventLog.{EventLog, Event, append, stamp}
use dogdb.Session.{Session}
use dogdb.Engine.Step.{
  Part, Step, Reach, here, next, append_all, log, hide, give_back, give_all_back,
}
use mathlib.Core.List.{append_assoc, append-nil}

-- The events from number n + 1 on.
abbrev pub Numbered : String → ℕ → List Event → Type 0
Numbered id n [] = Unit
Numbered id n (e ∷ l) = (e.seq ≡ suc n) × (e.session_id ≡ id) × Numbered id (suc n) l

pub record IsNumbered (log : EventLog) : Type 0 where
  pub last : log.seq ≡ length log.events
  pub numbered : Numbered log.session_id 0 log.events

pub Numbered-append :
    (id : String) (n : ℕ) (l : List Event) (e : Event)
    → Numbered id n l
    → e.seq ≡ n + length l + 1
    → e.session_id ≡ id
    → Numbered id n (l ++ e ∷ [])
Numbered-append id n [] e h k i = (omega arith, i, tt)
Numbered-append id n (x ∷ l) e h k i =
    (h.0, h.1, Numbered-append id (suc n) l e h.2 (omega arith) i)

pub append-IsNumbered : (l : EventLog) (e : Event) → IsNumbered l → IsNumbered (append l e)
unfolding append stamp
append-IsNumbered l e h = record {
  last = omega (arith, h.last, length-append {0} l.events (stamp l e ∷ []));
  numbered =
      Numbered-append l.session_id 0 l.events (stamp l e) h.numbered (omega (arith, h.last)) refl;
}

append_all-IsNumbered :
    (l : EventLog) (es : List Event) → IsNumbered l → IsNumbered (append_all l es)
append_all-IsNumbered l [] h = h
append_all-IsNumbered l (e ∷ es) h = append_all-IsNumbered (append l e) es (append-IsNumbered l e h)

pub IsNumbered-step :
    {part : Part} (s t : Session) → Step part s t → IsNumbered s.events → IsNumbered t.events
IsNumbered-step s _ (log e _) h = append-IsNumbered s.events e h
IsNumbered-step s _ (hide t e _ _) h = append-IsNumbered s.events e h
IsNumbered-step s _ (give_back id t e _ _) h = append-IsNumbered s.events e h
IsNumbered-step s _ (give_all_back es _) h = append_all-IsNumbered s.events es h
IsNumbered-step s _ _ h = h

-- The log of `t` is that of `s` with more events behind it.
abbrev pub Extends : Session → Session → Type 0
Extends s t = (more : List Event) × (t.events.events ≡ s.events.events ++ more)

append_all-extends :
    (l : EventLog) (es : List Event)
    → (more : List Event) × ((append_all l es).events ≡ l.events ++ more)
unfolding append
append_all-extends l [] = ([], sym (append-nil l.events))
append_all-extends l (e ∷ es) =
    let (more, q) = append_all-extends (append l e) es in
    (stamp l e ∷ more, q ∙ append_assoc l.events (stamp l e ∷ []) more)

Extends-step : {part : Part} (s t : Session) → Step part s t → Extends s t
unfolding append
Extends-step s _ (log e _) = (stamp s.events e ∷ [], refl)
Extends-step s _ (hide t e _ _) = (stamp s.events e ∷ [], refl)
Extends-step s _ (give_back id t e _ _) = (stamp s.events e ∷ [], refl)
Extends-step s _ (give_all_back es _) = append_all-extends s.events es
Extends-step s _ _ = ([], sym (append-nil s.events.events))

pub Extends-Reach : {part : Part} {s t : Session} → Reach part s t → Extends s t
Extends-Reach {s} here = ([], sym (append-nil s.events.events))
Extends-Reach {s} (next {t = t} {u = u} r st) =
    let (l, p) = Extends-Reach r in
    let (m, q) = Extends-step t u st in
    (l ++ m, q ∙ ap (λ x. x ++ m) p ∙ append_assoc s.events.events l m)
