-- ===== src/Store/File.antt =====
-- EventLog with a path, and read_events (core/event_log.py of src/dogdb). The text of a file is its
-- lines, and what stands after the last line end; `json.dumps` writes no line end.
use Prim.Native.String.{◌++◌ as join}
use dogdb.Prelude.{
  ◌≡◌, ℕ, suc, String, Bool, Option, none, some, List, [], ◌∷◌, ◌++◌, map, select, str_eq,
  if◌then◌else◌,
}
use dogdb.Prelude.Int.{ℤ, pos, ◌+ℤ◌, ltb_ℤ}
use dogdb.Exec.{Result, ok, err}
use dogdb.Store.{Json, object, StoredEvent, from_dict}
use dogdb.Store.Payload.{payload}

pub record File : Type 0 where
  pub lines : List String
  pub unfinished : String

-- Python's `json`: `json.loads(line.decode("utf-8"))` (none: it raises `ValueError`), `json.dumps(v)`,
-- and the text of a value in a message. Lines that are nested so deep that `json.loads` raises
-- `RecursionError`, which `read_events` does not catch, are left out.
pub record Codec : Type 0 where
  pub loads : String → Option Json
  pub dumps : Json → String
  pub repr : Option Json → String

-- What is written of an event is read back.
abbrev pub IsLoaded : Codec → StoredEvent → Type 0
IsLoaded c e = c.loads (c.dumps (object (payload e))) ≡ some (object (payload e))

-- EventLog, with a path; `file` is none while the file does not exist.
pub record FileLog : Type 0 where
  pub session_id : String
  pub seq : ℤ
  pub events : List StoredEvent
  pub file : Option File

-- The lines of a file as the iteration over its stream gives them.
unfoldable pub all_lines : Option File → List String
all_lines none = []
all_lines (some f) = if str_eq f.unfinished "" then f.lines else f.lines ++ f.unfinished ∷ []

-- The writing of a text and a line end to a file that is opened with "a".
unfoldable pub write_line : String → Option File → File
write_line s none = record { lines = s ∷ []; unfinished = "" }
write_line s (some f) = record { lines = f.lines ++ join f.unfinished s ∷ []; unfinished = "" }

-- max(…, default=0)
unfoldable pub max_from : ℤ → List ℤ → ℤ
max_from a [] = a
max_from a (b ∷ l) = max_from (if ltb_ℤ a b then b else a) l

unfoldable pub max_or_zero : List ℤ → ℤ
unfolding max_from
max_or_zero [] = pos 0
max_or_zero (a ∷ l) = max_from a l

abbrev pub is_of : String → StoredEvent → Bool
is_of session_id e = str_eq e.session_id session_id

abbrev pub seqs : List StoredEvent → List ℤ
seqs l = map (λ e. e.seq) l

abbrev pub parsed : Result StoredEvent → Option StoredEvent
parsed (ok e) = some e
parsed (err x) = none

module _ (c : Codec) where
  -- The event of a line; none if an exception is caught. `from_dict` raises `ValueError` and
  -- `KeyError` only, which are caught.
  unfoldable pub read_line : String → Option StoredEvent
  unfolding from_dict
  read_line s = elim (c.loads s) [ none ↦ none | some j ↦ parsed (from_dict c.repr j) ]

  -- The loop of read_events from a line number on: the events, and the lines that were warned of.
  unfoldable pub read_lines : ℕ → List String → List StoredEvent × List ℕ
  unfolding read_line
  read_lines n [] = ([], [])
  read_lines n (s ∷ l) =
      let (es, ws) = read_lines (suc n) l in
      elim (read_line s) [ none ↦ (es, n ∷ ws) | some e ↦ (e ∷ es, ws) ]

  -- read_events
  unfoldable pub read_events : Option File → List StoredEvent × List ℕ
  unfolding read_lines all_lines
  read_events f = read_lines 1 (all_lines f)

  -- EventLog.__init__
  unfoldable pub open_log : String → Option File → FileLog
  unfolding read_events max_or_zero
  open_log session_id f = record {
    session_id = session_id;
    seq = max_or_zero (seqs (select (is_of session_id) (read_events f).0));
    events = [];
    file = f;
  }

  -- The event that EventLog.append makes of the values that it is given.
  unfoldable pub stamp : FileLog → StoredEvent → StoredEvent
  stamp log e = record e {
    schema_version = pos 2;
    session_id = log.session_id;
    seq = log.seq +ℤ pos 1;
  }

  -- EventLog.append
  unfoldable pub append : FileLog → StoredEvent → FileLog
  unfolding stamp write_line payload
  append log e = record log {
    seq = log.seq +ℤ pos 1;
    events = log.events ++ stamp log e ∷ [];
    file = some (write_line (c.dumps (object (payload (stamp log e)))) log.file);
  }

  -- EventLog.events
  unfoldable pub events : FileLog → List StoredEvent
  unfolding read_events
  events log = select (is_of log.session_id) (read_events log.file).0

  unfoldable pub append_each : FileLog → List StoredEvent → FileLog
  unfolding append
  append_each log [] = log
  append_each log (e ∷ l) = append_each (append log e) l
