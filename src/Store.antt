-- ===== src/Store.antt =====
-- Event.from_dict of core/event_log.py of src/dogdb: the events of a log file, as JSON.
pub mod Payload
pub mod RoundTrip
pub mod File
pub mod Reads
pub mod Kept
pub mod Fresh
pub mod Stored
use Prim.Native.String.{◌++◌}
use dogdb.Prelude.{
  ℕ, zero, suc, String, Bool, true, false, not, ◌||◌, Option, none, some, List, [], ◌∷◌, str_eq,
  ◌==◌, any, if◌then◌else◌,
}
use dogdb.Prelude.Int.{ℤ, pos, negsuc}
use dogdb.Models.{Float, value_error, key_error}
use dogdb.Exec.{Result, ok, err}
use dogdb.Attempt.{◌>>=◌, ◌>>◌}
use dogdb.Settings.{refuse_names}

-- What `json.loads` makes. An object has each key once.
mutual
  pub data Json : Type 0 where
    null : Json
    bool : Bool → Json
    int : ℤ → Json
    real : Float → Json
    text : String → Json
    array : Items → Json
    object : Members → Json

  pub data Items : Type 0 where
    no_items : Items
    item : Json → Items → Items

  pub data Members : Type 0 where
    no_members : Members
    member : String → Json → Members → Members

-- Event, with its taxonomy attributes, as `from_dict` reads it.
pub record StoredEvent : Type 0 where
  pub schema_version : ℤ
  pub event_id : String
  pub session_id : String
  pub seq : ℤ
  pub event_type : String
  pub fault : Option String
  pub phase : Option String
  pub template_fingerprint : Option String
  pub parameter_fingerprint : Option String
  pub occurrence : Option ℤ
  pub decision_key : Option String
  pub outcome : Option String
  pub details : Option Members
  pub category : Option String
  pub severity : Option String

-- value.get(key)
unfoldable pub get : String → Members → Option Json
get key no_members = none
get key (member k v rest) = if str_eq k key then some v else get key rest

abbrev pub core_fields : List String
core_fields = "schema_version" ∷ "event_id" ∷ "session_id" ∷ "seq" ∷ "event_type" ∷ []

-- _V1_FIELDS
abbrev pub v1_fields : List String
v1_fields =
    "schema_version" ∷ "event_id" ∷ "session_id" ∷ "seq" ∷ "event_type" ∷ "fault" ∷ "phase"
    ∷ "template_fingerprint" ∷ "parameter_fingerprint" ∷ "occurrence" ∷ "decision_key" ∷ "outcome"
    ∷ "details" ∷ []

-- _V2_CONTEXT_FIELDS
abbrev pub v2_context_fields : List String
v2_context_fields =
    "schema_version" ∷ "event_id" ∷ "session_id" ∷ "seq" ∷ "event_type" ∷ "phase"
    ∷ "template_fingerprint" ∷ "parameter_fingerprint" ∷ "occurrence" ∷ "decision_key" ∷ "outcome"
    ∷ "details" ∷ []

-- _CORE_FIELDS | {"details"}
abbrev pub mood_fields : List String
mood_fields = "schema_version" ∷ "event_id" ∷ "session_id" ∷ "seq" ∷ "event_type" ∷ "details" ∷ []

-- _V2_FIELDS.get(event_type)
unfoldable pub v2_fields : String → Option (List String)
v2_fields t =
    if str_eq t "fault_injected" || str_eq t "treasure_returned"
    then some v1_fields
    else if str_eq t "mood_changed"
    then some mood_fields
    else if str_eq t "limit_exceeded" || str_eq t "decision_evaluated"
    then some v2_context_fields
    else none

-- required - value.keys()
unfoldable pub missing_fields : List String → Members → List String
unfolding get
missing_fields [] m = []
missing_fields (k ∷ l) m = elim (get k m) [
  | none ↦ k ∷ missing_fields l m
  | some v ↦ missing_fields l m
]

abbrev pub is_null : Json → Bool
is_null null = true
is_null v = false

-- The fields of `required` whose value is None.
unfoldable pub null_fields : List String → Members → List String
unfolding get
null_fields [] m = []
null_fields (k ∷ l) m = elim (get k m) [
  | none ↦ null_fields l m
  | some v ↦ if is_null v then k ∷ null_fields l m else null_fields l m
]

-- A field of text that may be None or absent.
unfoldable pub text_option : String → Option Json → Result (Option String)
text_option field none = ok none
text_option field (some null) = ok none
text_option field (some (text s)) = ok (some s)
text_option field (some v) = err (value_error (field ++ " must be a string"))

-- A field of text that is required, so that it is there and not None.
unfoldable pub text_value : String → Option Json → Result String
text_value field (some (text s)) = ok s
text_value field none = err key_error
text_value field (some v) = err (value_error (field ++ " must be a string"))

unfoldable pub int_option : Option Json → Result (Option ℤ)
int_option none = ok none
int_option (some null) = ok none
int_option (some (int z)) = ok (some z)
int_option (some v) = err (value_error "occurrence must be an integer")

unfoldable pub int_value : Option Json → Result ℤ
int_value (some (int z)) = ok z
int_value none = err key_error
int_value (some v) = err (value_error "seq must be an integer")

unfoldable pub object_option : Option Json → Result (Option Members)
object_option none = ok none
object_option (some null) = ok none
object_option (some (object m)) = ok (some m)
object_option (some v) = err (value_error "details must be an object")

-- `type(version) is int`
unfoldable pub version_of : Option Json → Result ℤ
version_of (some (int z)) = ok z
version_of v = err (value_error "schema_version must be an integer")

-- `repr` is the text of a value in a message.
module _ (repr : Option Json → String) where
  -- _required_fields, for schema 2
  unfoldable pub v2_required : Option Json → Result (List String)
  unfolding v2_fields
  v2_required (some (text t)) = elim (v2_fields t) [
    | none ↦ err (value_error ("unknown schema-v2 event_type " ++ repr (some (text t))))
    | some l ↦ ok l
  ]
  v2_required v = err (value_error ("unknown schema-v2 event_type " ++ repr v))

  -- The check of the version, and _required_fields
  unfoldable pub required_fields : ℤ → Option Json → Result (List String)
  unfolding v2_required
  required_fields (pos (suc zero)) event_type = ok v1_fields
  required_fields (pos (suc (suc zero))) event_type = v2_required event_type
  required_fields version event_type =
      err (value_error ("unsupported schema_version " ++ repr (some (int version))))

  -- The fields, once the required ones are known to be there. The order of the checks of the
  -- text fields is that of a set, which is not fixed.
  unfoldable pub read_fields : ℤ → Members → Result StoredEvent
  read_fields version m = do
    event_id ← text_value "event_id" (get "event_id" m)
    session_id ← text_value "session_id" (get "session_id" m)
    event_type ← text_value "event_type" (get "event_type" m)
    fault ← text_option "fault" (get "fault" m)
    phase ← text_option "phase" (get "phase" m)
    template ← text_option "template_fingerprint" (get "template_fingerprint" m)
    parameter ← text_option "parameter_fingerprint" (get "parameter_fingerprint" m)
    decision_key ← text_option "decision_key" (get "decision_key" m)
    outcome ← text_option "outcome" (get "outcome" m)
    category ← text_option "category" (get "category" m)
    severity ← text_option "severity" (get "severity" m)
    seq ← int_value (get "seq" m)
    occurrence ← int_option (get "occurrence" m)
    details ← object_option (get "details" m)
    ok (record {
      schema_version = version;
      event_id = event_id;
      session_id = session_id;
      seq = seq;
      event_type = event_type;
      fault = fault;
      phase = phase;
      template_fingerprint = template;
      parameter_fingerprint = parameter;
      occurrence = occurrence;
      decision_key = decision_key;
      outcome = outcome;
      details = details;
      category = category;
      severity = severity;
    })

  unfoldable pub read_members : Members → Result StoredEvent
  unfolding required_fields read_fields missing_fields null_fields
  read_members m = do
    version ← version_of (get "schema_version" m)
    required ← required_fields version (get "event_type" m)
    refuse_names "missing required fields: " (missing_fields required m)
    refuse_names "required fields must not be null: " (null_fields required m)
    read_fields version m

  -- Event.from_dict
  unfoldable pub from_dict : Json → Result StoredEvent
  unfolding read_members
  from_dict (object m) = read_members m
  from_dict v = err (value_error "event must be a JSON object")
