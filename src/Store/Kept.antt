-- ===== src/Store/Kept.antt =====
-- Log files after writes, corruption and a crash (core/event_log.py of src/dogdb).
use dogdb.Prelude.{
  ℕ, suc, ◌+◌, ◌≡◌, refl, sym, ap, ◌∙◌, String, Option, none, List, [], ◌∷◌, ◌++◌, length, All,
  arith, Option-cases, inl, inr,
}
use dogdb.Store.{StoredEvent}
use dogdb.Store.RoundTrip.{IsComplete}
use dogdb.Store.File.{
  File, Codec, IsLoaded, read_line, read_lines, read_events, open_log, append_each,
}
use dogdb.Store.Reads.{
  stamped, IsFinished, read_events-stamped, events-stamped, read_all, events-read_lines,
  read_all-append,
}

-- What the log keeps in memory and what is read from its file.
pub record IsKept (c : Codec) (id : String) (f : Option File) (l : List StoredEvent) : Type 0 where
  pub memory : (append_each c (open_log c id f) l).events ≡ stamped c (open_log c id f) l
  pub on_file :
      (read_events c (append_each c (open_log c id f) l).file).0
      ≡ (read_events c f).0 ++ (append_each c (open_log c id f) l).events

-- Whatever the file, unless its last line is unfinished, and whatever is appended, as long as the JSON
-- of each event is loaded as it was dumped and has the fields that the event's type requires: the file
-- gives back the events that it gave before, and then those that the log has in memory, in order.
pub append_each-IsKept :
    (c : Codec)
    → (id : String) (f : Option File) (l : List StoredEvent) → IsFinished c f
    → All (IsLoaded c) (stamped c (open_log c id f) l)
    → All IsComplete (stamped c (open_log c id f) l)
    → IsKept c id f l
unfolding open_log
append_each-IsKept c id f l h k w =
    let memory = events-stamped c l (open_log c id f) in
    record {
      memory = memory;
      on_file =
          read_events-stamped c l (open_log c id f) h k w
          ∙ ap (λ es. (read_events c f).0 ++ es) (sym memory);
    }

add_zero : (n : ℕ) → n ≡ n + 0
add_zero n = omega arith

add_suc : (n k : ℕ) → suc n + k ≡ n + suc k
add_suc n k = omega arith

-- The warnings of the lines before another.
warnings-append :
    (c : Codec) (n : ℕ) (l m : List String)
    → (read_lines c n (l ++ m)).1 ≡ (read_lines c n l).1 ++ (read_lines c (n + length l) m).1
unfolding read_lines
warnings-append c n [] m = ap (λ k. (read_lines c k m).1) (add_zero n)
warnings-append c n (s ∷ l) m =
    let rest =
      warnings-append c (suc n) l m
      ∙ ap (λ k. (read_lines c (suc n) l).1 ++ (read_lines c k m).1) (add_suc n (length l)) in
    elim (Option-cases (read_line c s)) [
      | inl e ↦ rw (read_lines, e) (ap (◌∷◌ n) rest)
      | inr (v, e) ↦ rw (read_lines, e) rest
    ]

-- A line that cannot be read gives its number, and nothing else.
bad_line :
    (c : Codec) (n : ℕ) (bad : String) (m : List String)
    → read_line c bad ≡ none
    → ((read_lines c n (bad ∷ m)).0 ≡ read_all c m)
      × ((read_lines c n (bad ∷ m)).1 ≡ n ∷ (read_lines c (suc n) m).1)
unfolding read_lines
bad_line c n bad m h = (rw (read_lines, h) (events-read_lines c (suc n) m), rw (read_lines, h) refl)

-- A line that cannot be read, wherever it stands, costs no event of the others: the events are those of
-- the lines before it and of the lines after it, and it is warned of by its number.
pub read_lines_corrupt :
    (c : Codec) (n : ℕ) (bad : String) (l m : List String)
    → read_line c bad ≡ none
    → ((read_lines c n (l ++ bad ∷ m)).0 ≡ (read_lines c n l).0 ++ (read_lines c n m).0)
      × ((read_lines c n (l ++ bad ∷ m)).1
          ≡ (read_lines c n l).1 ++ (n + length l) ∷ (read_lines c (suc (n + length l)) m).1)
read_lines_corrupt c n bad l m h =
    let (events, warning) = bad_line c (n + length l) bad m h in
    (
      events-read_lines c n (l ++ bad ∷ m)
          ∙ read_all-append c l (bad ∷ m)
          ∙ ap (λ es. read_all c l ++ es)
              (sym (events-read_lines c (n + length l) (bad ∷ m))
                ∙ events
                ∙ sym (events-read_lines c n m))
          ∙ ap (λ es. es ++ (read_lines c n m).0) (sym (events-read_lines c n l)),
      warnings-append c n l (bad ∷ m) ∙ ap (λ ws. (read_lines c n l).1 ++ ws) warning,
    )
