-- ===== src/Store/Fresh.antt =====
-- The sequence numbers of a log that is opened again (core/event_log.py of src/dogdb), and an append
-- after a line that a crash left unfinished.
use Prim.Native.String.{◌++◌ as join}
use mathlib.Core.Bool.{true≢false}
use mathlib.Core.List.{append-nil}
use dogdb.Prelude.{
  ltb→lt, ℕ, zero, suc, ◌+◌, ◌≤◌, ltb, ◌≡◌, refl, sym, ap, ◌∙◌, String, Bool, true, false, Option,
  none, some, List, [], ◌∷◌, ◌++◌, All, arith, Bool-cases, inl, inr, select, if◌then◌else◌,
}
use dogdb.Prelude.Int.{ℤ, pos, negsuc, ◌+ℤ◌, ltb_ℤ, pos_part, neg_part}
use dogdb.Store.{object, StoredEvent}
use dogdb.Store.Payload.{payload}
use dogdb.Store.File.{
  File, Codec, FileLog, all_lines, write_line, read_line, read_events, max_from, max_or_zero, seqs,
  is_of, open_log, stamp, append,
}
use dogdb.Store.Reads.{read_all, events_of_file, read_all-append, file-append, events-append}

-- a ≤ b
infix 50 ◌≤ℤ◌
abbrev pub ◌≤ℤ◌ : ℤ → ℤ → Type 0
a ≤ℤ b = pos_part a + neg_part b ≤ pos_part b + neg_part a

leb_of_ltb : (a b : ℕ) → ltb a b ≡ false → b ≤ a
leb_of_ltb a b h = ground arith

max_both : (a b : ℤ) → (a ≤ℤ (if ltb_ℤ a b then b else a)) × (b ≤ℤ (if ltb_ℤ a b then b else a))
max_both a b = elim (Bool-cases (ltb_ℤ a b)) [
  | inl e ↦ rw e (omega (arith, ltb→lt _ _ e), omega arith)
  | inr e ↦ rw e (omega arith, leb_of_ltb _ _ e)
]

max_from_bound : (a : ℤ) (l : List ℤ) (m : ℤ) → max_from a l ≤ℤ m → (a ≤ℤ m) × All (λ b. b ≤ℤ m) l
unfolding max_from
max_from_bound a [] m h = (h, tt)
max_from_bound a (b ∷ l) m h =
    let (x, rest) = max_from_bound (if ltb_ℤ a b then b else a) l m h in
    let (u, v) = max_both a b in (omega (arith, u, x), (omega (arith, v, x), rest))

max_or_zero-All : (l : List ℤ) → All (λ b. b ≤ℤ max_or_zero l) l
unfolding max_or_zero
max_or_zero-All [] = tt
max_or_zero-All (a ∷ l) = max_from_bound a l (max_from a l) (omega arith)

below_next : (a b : ℤ) → a ≤ℤ b → ltb_ℤ a (b +ℤ pos 1) ≡ true
unfolding ◌+ℤ◌
below_next a (pos n) h = ground (arith, h)
below_next a (negsuc zero) h = ground (arith, h)
below_next a (negsuc (suc n)) h = ground (arith, h)

-- What holds of the numbers of the selected events holds of each event that the test selects.
select_step :
    (test : StoredEvent → Bool) (P : ℤ → Type 0) (e : StoredEvent) (l : List StoredEvent) (b : Bool)
    → test e ≡ b
    → (All P (seqs (select test l)) → All (λ e. test e ≡ true → P e.seq) l)
    → All P (seqs (if b then e ∷ select test l else select test l))
    → (test e ≡ true → P e.seq) × All (λ e. test e ≡ true → P e.seq) l
select_step test P e l true same rest k = ((λ h. k.0), rest k.1)
select_step test P e l false same rest k = ((λ h. absurd (true≢false (sym h ∙ same))), rest k)

All-select :
    (test : StoredEvent → Bool) (P : ℤ → Type 0) (l : List StoredEvent)
    → All P (seqs (select test l))
    → All (λ e. test e ≡ true → P e.seq) l
All-select test P [] h = tt
All-select test P (e ∷ l) h = select_step test P e l (test e) refl (All-select test P l) h

All-map {ℓ κ κ'} :
    {A : Type ℓ} {P : A → Type κ} {Q : A → Type κ'} (f : (a : A) → P a → Q a) (l : List A)
    → All P l
    → All Q l
All-map f [] h = tt
All-map f (a ∷ l) h = (f a h.0, All-map f l h.1)

-- Whatever stands in the file, the number that a log on it gives to its next event is above the number
-- of every event of its session that the file gives.
pub open_log_fresh :
    (c : Codec) (id : String) (f : Option File)
    → All
        (λ e. is_of id e ≡ true → ltb_ℤ e.seq ((open_log c id f).seq +ℤ pos 1) ≡ true)
        (read_events c f).0
unfolding open_log
open_log_fresh c id f =
    All-map (λ e k own. below_next e.seq _ (k own)) (read_events c f).0
      (All-select (is_of id) (λ z. z ≤ℤ (open_log c id f).seq) (read_events c f).0
        (max_or_zero-All _))

bad_alone : (c : Codec) (s : String) → read_line c s ≡ none → read_all c (s ∷ []) ≡ []
unfolding read_all
bad_alone c s h = rw (read_all, h) refl

-- If the file's last line is unfinished, and it cannot be read when the text of the next event is
-- written behind it, then that event is not read from the file, nor any other than those of the
-- finished lines; the log has it in memory all the same.
pub append_unfinished :
    (c : Codec) (log : FileLog) (f : File) (e : StoredEvent)
    → log.file ≡ some f
    → read_line c (join f.unfinished (c.dumps (object (payload (stamp c log e))))) ≡ none
    → ((read_events c (append c log e).file).0
        ≡ (read_events c (some (record f { unfinished = "" }))).0)
      × ((append c log e).events ≡ log.events ++ stamp c log e ∷ [])
unfolding write_line all_lines read_all
append_unfinished c log f e h bad = (
  ap (λ g. (read_events c g).0)
        (file-append c log e
          ∙ ap (λ g. some (write_line (c.dumps (object (payload (stamp c log e)))) g)) h)
      ∙ events_of_file c (some (write_line (c.dumps (object (payload (stamp c log e)))) (some f)))
      ∙ read_all-append c f.lines
          (join f.unfinished (c.dumps (object (payload (stamp c log e)))) ∷ [])
      ∙ ap (λ es. read_all c f.lines ++ es) (bad_alone c _ bad)
      ∙ append-nil (read_all c f.lines)
      ∙ sym (events_of_file c (some (record f { unfinished = "" }))),
  events-append c log e,
)
