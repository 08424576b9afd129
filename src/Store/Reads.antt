-- ===== src/Store/Reads.antt =====
-- What is read from a log file that was written to (core/event_log.py of src/dogdb).
use Prim.Native.String.{◌++◌ as join}
use mathlib.Core.List.{append_assoc, append-nil}
use mathlib.Core.Path.{subst}
use package.text.Mathlib.TextBridge.{to_list, of_list, of_list-to_list, of_list-++}
use dogdb.Prelude.{
  ℕ, suc, ◌≡◌, refl, sym, ap, ◌∙◌, String, Option, none, some, List, [], ◌∷◌, ◌++◌, All,
  Option-cases, inl, inr,
}
use dogdb.Store.{object, StoredEvent}
use dogdb.Store.Payload.{payload}
use dogdb.Store.RoundTrip.{IsComplete, from_dict-payload}
use dogdb.Store.File.{
  File, Codec, IsLoaded, FileLog, all_lines, write_line, read_line, read_lines, read_events, stamp,
  append, append_each,
}

pub join_empty : (s : String) → join "" s ≡ s
unfolding of_list
join_empty s = subst (λ t. join "" t ≡ t) (of_list-to_list s) (sym (of_list-++ [] (to_list s)))

module _ (c : Codec) where
  -- The events of the lines that can be read, in order.
  unfoldable pub read_all : List String → List StoredEvent
  unfolding read_line
  read_all [] = []
  read_all (s ∷ l) = elim (read_line c s) [ none ↦ read_all l | some e ↦ e ∷ read_all l ]

  pub events-read_lines : (n : ℕ) (l : List String) → (read_lines c n l).0 ≡ read_all l
  unfolding read_lines read_all
  events-read_lines n [] = refl
  events-read_lines n (s ∷ l) = elim (Option-cases (read_line c s)) [
    | inl e ↦ rw (read_lines, read_all, e) (events-read_lines (suc n) l)
    | inr (v, e) ↦ rw (read_lines, read_all, e) (ap (◌∷◌ v) (events-read_lines (suc n) l))
  ]

  pub read_all-append : (l m : List String) → read_all (l ++ m) ≡ read_all l ++ read_all m
  unfolding read_all
  read_all-append [] m = refl
  read_all-append (s ∷ l) m = elim (Option-cases (read_line c s)) [
    | inl e ↦ rw (read_all, e) (read_all-append l m)
    | inr (v, e) ↦ rw (read_all, e) (ap (◌∷◌ v) (read_all-append l m))
  ]

  pub read_line-dumps :
      (e : StoredEvent)
      → IsLoaded c e
      → IsComplete e
      → read_line c (c.dumps (object (payload e))) ≡ some e
  unfolding read_line
  read_line-dumps e k h = rw (read_line, k, from_dict-payload c.repr e h) refl

  -- The file ends in a line end, or there is none.
  abbrev pub IsFinished : Option File → Type 0
  IsFinished none = Unit
  IsFinished (some f) = f.unfinished ≡ ""

  pub events_of_file : (f : Option File) → (read_events c f).0 ≡ read_all (all_lines f)
  unfolding read_events
  events_of_file f = events-read_lines 1 (all_lines f)

  pub all_lines-write :
      (s : String) (f : Option File)
      → IsFinished f
      → all_lines (some (write_line s f)) ≡ all_lines f ++ s ∷ []
  unfolding all_lines write_line
  all_lines-write s none h = refl
  all_lines-write s (some f) h = rw (h, join_empty s) refl

  pub file-append :
      (log : FileLog) (e : StoredEvent)
      → (append c log e).file
        ≡ some (write_line (c.dumps (object (payload (stamp c log e)))) log.file)
  unfolding append
  file-append log e = refl

  pub events-append :
      (log : FileLog) (e : StoredEvent) → (append c log e).events ≡ log.events ++ stamp c log e ∷ []
  unfolding append
  events-append log e = refl

  pub read_events-append :
      (log : FileLog) (e : StoredEvent)
      → IsFinished log.file
      → IsLoaded c (stamp c log e)
      → IsComplete (stamp c log e)
      → (read_events c (append c log e).file).0 ≡ (read_events c log.file).0 ++ stamp c log e ∷ []
  unfolding read_all
  read_events-append log e h k w =
      rw
        (
          file-append log e,
          events_of_file (some (write_line (c.dumps (object (payload (stamp c log e)))) log.file)),
          events_of_file log.file,
          all_lines-write (c.dumps (object (payload (stamp c log e)))) log.file h,
          read_all-append (all_lines log.file) (c.dumps (object (payload (stamp c log e))) ∷ []),
          read_all,
          read_line-dumps (stamp c log e) k w,
        )
        refl

  write_line-IsFinished : (s : String) (f : Option File) → IsFinished (some (write_line s f))
  unfolding write_line
  write_line-IsFinished s none = refl
  write_line-IsFinished s (some f) = refl

  append-IsFinished : (log : FileLog) (e : StoredEvent) → IsFinished (append c log e).file
  unfolding append
  append-IsFinished log e = write_line-IsFinished _ log.file

  -- What the calls of `append` record, in order.
  unfoldable pub stamped : FileLog → List StoredEvent → List StoredEvent
  stamped log [] = []
  stamped log (e ∷ l) = stamp c log e ∷ stamped (append c log e) l

  pub read_events-stamped :
      (l : List StoredEvent) (log : FileLog)
      → IsFinished log.file
      → All (IsLoaded c) (stamped log l)
      → All IsComplete (stamped log l)
      → (read_events c (append_each c log l).file).0 ≡ (read_events c log.file).0 ++ stamped log l
  unfolding append_each stamped
  read_events-stamped [] log h k w = sym (append-nil _)
  read_events-stamped (e ∷ l) log h k w =
      read_events-stamped l (append c log e) (append-IsFinished log e) k.1 w.1
      ∙ ap (λ es. es ++ stamped (append c log e) l) (read_events-append log e h k.0 w.0)
      ∙ append_assoc _ (stamp c log e ∷ []) _

  pub events-stamped :
      (l : List StoredEvent) (log : FileLog)
      → (append_each c log l).events ≡ log.events ++ stamped log l
  unfolding append_each stamped
  events-stamped [] log = sym (append-nil _)
  events-stamped (e ∷ l) log =
      events-stamped l (append c log e)
      ∙ ap (λ es. es ++ stamped (append c log e) l) (events-append log e)
      ∙ append_assoc _ (stamp c log e ∷ []) _
