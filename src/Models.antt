-- ===== src/Models.antt =====
-- core/models.py and core/errors.py of src/dogdb: results, decisions and the exceptions, with the
-- Python values that a row can hold.
use dogdb.Prelude.{ℕ, String, Bool, Option, List, ◌==◌}
use dogdb.Prelude.Int.{ℤ}

-- A Python float, by its bit pattern. Its arithmetic is a parameter (`Platform`).
pub data Float : Type 0 where
  float : ℕ → Float

-- A `decimal.Decimal`, by a number that stands for it. Its arithmetic is a parameter.
pub data Decimal : Type 0 where
  decimal : ℕ → Decimal

-- A cell of a row. `other` is an object of any other type.
pub data Value : Type 0 where
  null : Value
  bool : Bool → Value
  int : ℤ → Value
  real : Float → Value
  text : String → Value
  dec : Decimal → Value
  other : ℕ → Value

abbrev pub Row : Type 0
Row = List Value

pub record LogicalResult : Type 0 where
  pub columns : List String
  pub rows : List Row
  pub rowcount : ℤ
  pub column_types : Option (List Value)

-- The values of `phase`, on decisions and on events.
pub data Phase : Type 0 where
  before_execute on_result manual_return auto_return : Phase

unfoldable pub phase_name : Phase → String
phase_name before_execute = "before_execute"
phase_name on_result = "on_result"
phase_name manual_return = "manual_return"
phase_name auto_return = "auto_return"

pub record Decision : Type 0 where
  pub template_fingerprint : String
  pub parameter_fingerprint : String
  pub occurrence : ℕ
  pub phase : Phase
  pub decision_key : String

-- The fault names. `stash_error` is the candidate "STASH_ERROR", no fault of its own.
pub data Fault : Type 0 where
  bark guard_bowl ignore sloth no_drop stash_error stash false_empty tail_chase page_hole : Fault
  echo shuffle tangled_leash chew wrong_count old_bone : Fault

unfoldable pub fault_name : Fault → String
fault_name bark = "BARK"
fault_name guard_bowl = "GUARD_BOWL"
fault_name ignore = "IGNORE"
fault_name sloth = "SLOTH"
fault_name no_drop = "NO_DROP"
fault_name stash_error = "STASH_ERROR"
fault_name stash = "STASH"
fault_name false_empty = "FALSE_EMPTY"
fault_name tail_chase = "TAIL_CHASE"
fault_name page_hole = "PAGE_HOLE"
fault_name echo = "ECHO"
fault_name shuffle = "SHUFFLE"
fault_name tangled_leash = "TANGLED_LEASH"
fault_name chew = "CHEW"
fault_name wrong_count = "WRONG_COUNT"
fault_name old_bone = "OLD_BONE"

abbrev pub fault_index : Fault → ℕ
fault_index bark = 0
fault_index guard_bowl = 1
fault_index ignore = 2
fault_index sloth = 3
fault_index no_drop = 4
fault_index stash_error = 5
fault_index stash = 6
fault_index false_empty = 7
fault_index tail_chase = 8
fault_index page_hole = 9
fault_index echo = 10
fault_index shuffle = 11
fault_index tangled_leash = 12
fault_index chew = 13
fault_index wrong_count = 14
fault_index old_bone = 15

abbrev pub fault_eq : Fault → Fault → Bool
fault_eq f g = fault_index f == fault_index g

-- The exception classes derived from `DogDBError`.
pub data ErrorKind : Type 0 where
  stashed_error ignored_error bark_error busy_error no_drop_error limit_error : ErrorKind
  tail_chase_error : ErrorKind

pub record DogDbError : Type 0 where
  pub kind : ErrorKind
  pub event_id : String
  pub fault : Option Fault
  pub phase : Option Phase
  pub retryable : Bool
  pub outcome : Option String
  pub category : Option String
  pub severity : Option String
  pub delivered_rows : Option ℕ

-- What a call can raise: an injected error, the library's own signals, Python's built-in
-- exceptions, and an error of the backend (by a number that stands for it).
pub data Error : Type 0 where
  dolly : DogDbError → Error
  row_cap_exceeded passthrough_error : Error
  index_error zero_division assertion_error key_error type_error overflow_error : Error
  attribute_error import_error : Error
  value_error : String → Error
  backend_error : ℕ → Error
