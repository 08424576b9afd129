-- ===== src/Engine/Written.antt =====
-- A session whose log is on a file (proxy/connection.py and core/event_log.py of src/dogdb): every
-- event that the engine logs can be read from the file.
use mathlib.Core.Path.{subst}
use dogdb.Prelude.{
  ℕ, suc, ◌+◌, ◌≡◌, refl, sym, ap, ◌∙◌, String, Option, List, [], ◌∷◌, ◌++◌, map, All, select,
  length, length-append, select-append, eq_iff, arith,
}
use dogdb.Prelude.Int.{pos, ◌+ℤ◌}
use dogdb.EventLog
use dogdb.EventLog.{EventLog, Event}
use dogdb.EventLog.Whole.{IsWhole, append-IsWhole}
use dogdb.House.{Treasure}
use dogdb.Platform.{Platform, IsDigest}
use dogdb.Store.{StoredEvent}
use dogdb.Store.RoundTrip.{IsComplete}
use dogdb.Store.Stored.{stored, IsComplete-stored}
use dogdb.Store.File.{
  File, Codec, IsLoaded, FileLog, read_events, open_log, stamp, append, append_each, events, is_of,
}
use dogdb.Store.Reads.{stamped, IsFinished}
use dogdb.Store.Kept.{append_each-IsKept}
use dogdb.Session.{Config, Session}
use dogdb.Engine.{World}
use dogdb.Engine.Calls.{Call, run, run-Reach}
use dogdb.Engine.Logged.{Numbered, Numbered-append}
use dogdb.Engine.Step.{
  Part, Step, Reach_induction, ReportsAll, none_left, one_more, append_all, log, hide, give_back,
  give_all_back,
}

append_all-IsWhole :
    (l : EventLog) {es : List Event} {ts : List Treasure}
    → ReportsAll es ts
    → All IsWhole l.events
    → All IsWhole (append_all l es).events
append_all-IsWhole l none_left h = h
append_all-IsWhole l (one_more {e = e} r rest) h =
    append_all-IsWhole (EventLog.append l e) rest (append-IsWhole l e h r.whole)

IsWhole-step :
    {part : Part} (s t : Session)
    → Step part s t
    → All IsWhole s.events.events
    → All IsWhole t.events.events
IsWhole-step s _ (log e plain) h = append-IsWhole s.events e h plain.whole
IsWhole-step s _ (hide t e _ r) h = append-IsWhole s.events e h r.whole
IsWhole-step s _ (give_back id t e _ r) h = append-IsWhole s.events e h r.whole
IsWhole-step s _ (give_all_back es r) h = append_all-IsWhole s.events r h
IsWhole-step s _ _ h = h

-- The log of the session goes on from number n.
record Continues (id : String) (n : ℕ) (l : EventLog) : Type 0 where
  session : l.session_id ≡ id
  last : l.seq ≡ n + length l.events
  numbered : Numbered id n l.events

Continues-append :
    (id : String) (n : ℕ) (l : EventLog) (e : Event)
    → Continues id n l
    → Continues id n (EventLog.append l e)
unfolding EventLog.append EventLog.stamp
Continues-append id n l e h = record {
  session = h.session;
  last = omega (arith, h.last, length-append {0} l.events (EventLog.stamp l e ∷ []));
  numbered =
      Numbered-append id n l.events (EventLog.stamp l e) h.numbered (omega (arith, h.last))
        h.session;
}

Continues-append_all :
    (id : String) (n : ℕ) (l : EventLog) (es : List Event)
    → Continues id n l
    → Continues id n (append_all l es)
Continues-append_all id n l [] h = h
Continues-append_all id n l (e ∷ es) h =
    Continues-append_all id n (EventLog.append l e) es (Continues-append id n l e h)

Continues-step :
    (id : String) (n : ℕ) {part : Part} (s t : Session)
    → Step part s t
    → Continues id n s.events
    → Continues id n t.events
Continues-step id n s _ (log e _) h = Continues-append id n s.events e h
Continues-step id n s _ (hide t e _ _) h = Continues-append id n s.events e h
Continues-step id n s _ (give_back i t e _ _) h = Continues-append id n s.events e h
Continues-step id n s _ (give_all_back es _) h = Continues-append_all id n s.events es h
Continues-step id n s _ _ h = h

next_number : (n : ℕ) → pos n +ℤ pos 1 ≡ pos (suc n)
unfolding ◌+ℤ◌
next_number n = ground arith

module _ (c : Codec) where
  -- The log on a file gives the events the numbers that they have.
  stamp-stored :
      (l : FileLog) (n : ℕ) (e : Event)
      → l.seq ≡ pos n
      → (e.seq ≡ suc n) × (e.session_id ≡ l.session_id)
      → stamp c l (stored e) ≡ stored e
  unfolding stamp stored
  stamp-stored l n e h (number, session) =
      ap (λ z. record (stored e) { session_id = l.session_id; seq = z })
        (ap (λ z. z +ℤ pos 1) h ∙ next_number n ∙ ap (λ k. pos k) (sym number))
      ∙ ap (λ i. record (stored e) { session_id = i; seq = pos e.seq }) (sym session)

  stamped-stored :
      (es : List Event) (l : FileLog) (n : ℕ)
      → l.seq ≡ pos n
      → Numbered l.session_id n es
      → stamped c l (map stored es) ≡ map stored es
  unfolding stamped append
  stamped-stored [] l n h k = refl
  stamped-stored (e ∷ es) l n h k =
      ap (λ x. x ∷ stamped c (append c l (stored e)) (map stored es))
        (stamp-stored l n e h (k.0, k.1))
      ∙ ap (λ m. stored e ∷ m)
          (stamped-stored es (append c l (stored e)) (suc n)
            (ap (λ z. z +ℤ pos 1) h ∙ next_number n) k.2)

-- Every event of the log is complete as it is written.
All-IsComplete : (l : List Event) → All IsWhole l → All IsComplete (map stored l)
All-IsComplete [] h = tt
All-IsComplete (e ∷ l) h = (IsComplete-stored e h.0, All-IsComplete l h.1)

-- All events of a session are of that session.
select-stored :
    (id : String) (n : ℕ) (l : List Event)
    → Numbered id n l
    → select (is_of id) (map stored l) ≡ map stored l
unfolding stored
select-stored id n [] h = refl
select-stored id n (e ∷ l) h =
    rw ((eq_iff e.session_id id).1 h.1) (ap (λ m. stored e ∷ m) (select-stored id (suc n) l h.2))

-- What the file log of a session has after the events `l`, and what is read of its file.
pub record IsOnFile (c : Codec) (id : String) (f : Option File) (l : List Event) : Type 0 where
  pub memory : (append_each c (open_log c id f) (map stored l)).events ≡ map stored l
  pub on_file :
      (read_events c (append_each c (open_log c id f) (map stored l)).file).0
      ≡ (read_events c f).0 ++ map stored l
  pub of_session :
      events c (append_each c (open_log c id f) (map stored l))
      ≡ select (is_of id) (read_events c f).0 ++ map stored l

session_append_each :
    (c : Codec) (start : FileLog) (l : List StoredEvent)
    → (append_each c start l).session_id ≡ start.session_id
unfolding append_each append
session_append_each c start [] = refl
session_append_each c start (e ∷ l) = session_append_each c (append c start e) l

events-IsOnFile :
    (c : Codec) (id : String) (n : ℕ) (f : Option File) (l : List Event)
    → (open_log c id f).seq ≡ pos n
    → IsFinished c f
    → Numbered id n l
    → All IsWhole l
    → All (IsLoaded c) (map stored l)
    → IsOnFile c id f l
unfolding events open_log
events-IsOnFile c id n f l start finished numbered whole loaded =
    let same = stamped-stored c l (open_log c id f) n start numbered in
    let kept =
      append_each-IsKept c id f (map stored l) finished (subst (All (IsLoaded c)) (sym same) loaded)
        (subst (All IsComplete) (sym same) (All-IsComplete l whole)) in
    let on_file = kept.on_file ∙ ap (λ m. (read_events c f).0 ++ m) (kept.memory ∙ same) in
    record {
      memory = kept.memory ∙ same;
      on_file = on_file;
      of_session =
          ap
            (λ i.
              select (is_of i)
                (read_events c (append_each c (open_log c id f) (map stored l)).file).0)
            (session_append_each c (open_log c id f) (map stored l))
          ∙ ap (select (is_of id)) on_file
          ∙ select-append (is_of id) (read_events c f).0 (map stored l)
          ∙ ap (λ m. select (is_of id) (read_events c f).0 ++ m) (select-stored id n l numbered);
    }

-- From a session whose log is empty and goes on from the number that its log file gives, unless the
-- last line of that file is unfinished, whatever calls are made and whichever of them raise, as long
-- as the JSON of each event is loaded as it was dumped: the log on the file has the events of the
-- session in memory; the file gives the events that it gave before, and then these, in order; and
-- `events` gives those before that are of the session, and then these.
pub run-IsOnFile :
    (p : Platform) (c : Config) (w : World)
    → IsDigest p
    → (codec : Codec) (id : String) (n : ℕ) (f : Option File) (l : List Call) (s : Session)
    → s.events ≡ record { session_id = id; seq = n; events = [] }
    → (open_log codec id f).seq ≡ pos n
    → IsFinished codec f
    → All (IsLoaded codec) (map stored (run p c w l s).events.events)
    → IsOnFile codec id f (run p c w l s).events.events
run-IsOnFile p c w g codec id n f l s fresh start finished loaded =
    let reach = run-Reach p c w g l s in
    let empty : Continues id n s.events =
      subst (Continues id n) (sym fresh)
        (record { session = refl; last = omega arith; numbered = tt }) in
    let whole =
      Reach_induction {P = λ t. All IsWhole t.events.events} IsWhole-step reach
        (subst (λ (x : EventLog). All IsWhole x.events) (sym fresh) tt) in
    let continued =
      Reach_induction {P = λ t. Continues id n t.events} (Continues-step id n) reach empty in
    events-IsOnFile codec id n f (run p c w l s).events.events start finished continued.numbered
      whole loaded
