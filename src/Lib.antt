-- ===== src/Lib.antt =====
-- DogDB wraps a database connection and injects faults into the results that a client reads. The
-- faults are chosen by digests of the session's seed, so that a run can be replayed, and every one
-- of them is recorded in an event log. This library models the engine between the client and the
-- database: the code of src/dogdb.
--
-- The parts, and the files that model them:
--   Models        core/models.py and core/errors.py: rows, results, decisions, faults, errors.
--   Platform      core/decision.py: the digests that decide. SHA-256, HMAC, the floating-point
--                 operations, lower case and decimals are the fields of the record `Platform`;
--                 `IsDigest` says that a digest is 32 bytes below 256.
--   EventLog      core/event_log.py: the events and `EventLog.append` without a file.
--   Store         core/event_log.py: `Event.from_dict`; Store/Payload has the JSON that is written of
--                 an event, Store/File the log on a file and `read_events`.
--   Settings      core/validation.py and what a caller may pass: Settings/Moods is
--                 `parse_mood_config`, Settings/Returns `parse_auto_return_config`, Settings/Policies
--                 `FaultPolicy.__post_init__`.
--   Wrap          `wrap`, `connect`, `_adapter_for` and `_normalize_tables` of proxy/connection.py,
--                 which make the configuration and the state of a session.
--   House         core/house.py: the ledger of the stashed rows and the projection of the log.
--                 Its invariant is House/Valid, its projection House/Projection.
--   AutoReturn    core/auto_return.py: the scheduler of automatic returns.
--   Mood          core/mood.py: the mood that changes with the epochs and scales the weights.
--   Sql           core/sql.py: the classification, from the syntax tree and the scopes of sqlglot.
--   Stats         core/stats.py: the counters.
--   Policy        the tables of core/faults.py and `FaultPolicy`.
--   StaleCache    core/stale_cache.py: the bounded cache of earlier results.
--   Fingerprints  core/fingerprints.py: `normalize_sql` and the fingerprints.
--   Faults        core/faults.py: `FaultEngine`. Faults selects, Faults/Record logs and raises,
--                 Faults/Rows has the changes of rows, Faults/Inject the faults, Faults/OnResult
--                 the two phases.
--   Adapter       adapters/base.py and the two adapters: a cursor read into a result.
--   Session       the state that the parts of a session share (proxy/connection.py).
--   Engine        proxy/connection.py: the manual and automatic returns, the mood and the scope;
--                 Engine/Execute has `execute` and `executemany`, Engine/Calls a client's calls.
--   Surface       the fetches of DuckDBProxy and CursorProxy (proxy/connection.py); Surface/Cursor has
--                 the calls of CursorProxy, the descriptions and the end of a `with` block,
--                 Surface/Native the attributes that pass to the native connection.
--
-- The code that changes shared objects is state passing: `Run A` takes a `Session` and gives a
-- result or an error with the session as it had become, so what was done before an exception stays
-- done (Exec). A dictionary is an association list in the order of insertion (Prelude/Dict). The
-- statement's classification and the backend's answers are the fields of `World`: `classify` is a
-- function from the text, and `backend` gives the answer to each call by its number.
--
-- Code that raises and changes no state gives a `Result` (Attempt); `Makes P r` says that the
-- result of `r`, if there is one, has the property `P`. A setting is a Python value of any type
-- (`Setting`); the name of a type that the source annotates and never tests, such as the `str` of a
-- mode, is trusted. The text of JSON is a parameter (`Codec`): what `json.loads` makes of a line,
-- and what `json.dumps` makes of a value. A file is its lines, and what stands after the last line
-- end.
--
-- The other files have proofs: Adapter/Cap (the loop of `materialize`), AutoReturn/Hold,
-- AutoReturn/Due and AutoReturn/Live (the scheduler), Stats/Counts (the counters),
-- StaleCache/Bounds (the limits of the cache), StaleCache/Keys, Entries, Indexed, Trimmed, Added,
-- Recent, Window, Newest and Refines (the cache against one that forgets nothing), Faults/Selected
-- (the selection), Faults/Shape, Faults/Stashed, Faults/Order, Faults/Range, Faults/Count,
-- Faults/Cells and Faults/Chewed (what the faults do to rows, values, names and counts),
-- Engine/Blocked, Engine/Transparent, Engine/Undisturbed and Engine/Passed (what reaches the
-- backend), Engine/Ticks (the clock), Mood/Epochs (the mood), EventLog/Whole and Store/Stored (what
-- an event must have to be read back, and its words as they are written). Engine/Cached, with
-- Leads, Calls and History, and Wrap/Remembered are about the stale cache over the calls of a
-- session, Engine/Clocked and Wrap/Clocked about the clock and the mood over them, Engine/Written
-- about a session whose log is also a file, Engine/Sticky about the queries after STASH. `Gives`
-- (Exec/Gives) says that an action returns from every state, and what; `Keeps` (Exec/Keeps) is an
-- invariant of an action. Settings/Usable and Settings/Probable are about the configurations that
-- are made, Wrap/Made and Wrap/Ready about what `wrap` makes, and Wrap/Sessions about all calls
-- from `wrap` on; Store/RoundTrip, Store/Reads, Store/Kept and Store/Fresh are about what is read
-- from a file; Surface/Delivery, Surface/Described, Surface/Shown, Surface/Reported and
-- Surface/Iterated are about what a client sees of a result. Tests applies the properties to
-- concrete inputs.
--
-- `Step` (Engine/Step) is a relation with one constructor for each thing that the engine does to a
-- session, and Engine/Reaches shows that every operation is a sequence of steps. What a step keeps,
-- a session keeps (Engine/Housed, Engine/Logged). A step has a `Part`, which says whether it may
-- count an occurrence or fill the cache, and whether it may move the clock or the mood: what a part
-- of the engine never does, it is shown to keep.
--
-- Loops are structural but for four: a `for` loop over a cursor (Surface/Cursor) goes on fuel, for
-- which one round more than there are rows left is enough, `materialize` with a row cap reads on
-- fuel, for which two rounds more than there are rows are enough, and the two loops of
-- `StaleReadCache.add` run on the number of the occurrences of a key and on the number of the
-- entries, since each round removes one.
--
-- Not modelled: the properties of the surfaces that only hand on an object of the engine or a call
-- of the native connection, and DuckDBProxy.cursor, which is a second surface on the same session.
-- Settings that cannot be compared with 0 raise `TypeError` without its text. A row is compared by
-- `row_eq` of the platform, since Python compares values by methods of their own. `wrap` is
-- modelled without its `log_path`, and with a `max_intervention_rows` and a `house_limit` that are
-- not negative: the numbers of a session that `wrap` opens on an existing log go on from that log,
-- and its `events()` reads the file. Engine/Written takes a file that gets what `EventLog.append`
-- appends, in order; a write that fails is not modelled. A line of a log so deeply nested that
-- `json.loads` raises `RecursionError` is left out.
pub mod Prelude
pub mod Models
pub mod Exec
pub mod Platform
pub mod EventLog
pub mod House
pub mod AutoReturn
pub mod Mood
pub mod Sql
pub mod Stats
pub mod Policy
pub mod StaleCache
pub mod Session
pub mod Faults
pub mod Fingerprints
pub mod Adapter
pub mod Engine
pub mod Surface
pub mod Attempt
pub mod Settings
pub mod Store
pub mod Wrap
mod Tests
