-- ===== src/Store/Payload.antt =====
-- The JSON that EventLog.append of core/event_log.py of src/dogdb writes of an event.
use mathlib.Core.Path.{subst}
use dogdb.Prelude.{
  eq_iff, ◌≡◌, refl, String, Bool, false, ◌||◌, Option, none, some, List, [], ◌∷◌, All, str_eq,
  if◌then◌else◌, arith, Bool-cases, inl, inr,
}
use dogdb.Prelude.Int.{ℤ}
use dogdb.Store.{Json, int, text, object, is_null, Members, no_members, member, StoredEvent, get}

-- The fields of an event under their names, as `asdict` lists them, and then the taxonomy.
abbrev pub Fields : Type 0
Fields = List (String × Option Json)

abbrev pub map_text : Option String → Option Json
map_text none = none
map_text (some s) = some (text s)

abbrev pub map_int : Option ℤ → Option Json
map_int none = none
map_int (some z) = some (int z)

abbrev pub map_object : Option Members → Option Json
map_object none = none
map_object (some m) = some (object m)

abbrev pub fields : StoredEvent → Fields
fields e =
    ("schema_version", some (int e.schema_version))
    ∷ ("event_id", some (text e.event_id))
    ∷ ("session_id", some (text e.session_id))
    ∷ ("seq", some (int e.seq))
    ∷ ("event_type", some (text e.event_type))
    ∷ ("fault", map_text e.fault)
    ∷ ("phase", map_text e.phase)
    ∷ ("template_fingerprint", map_text e.template_fingerprint)
    ∷ ("parameter_fingerprint", map_text e.parameter_fingerprint)
    ∷ ("occurrence", map_int e.occurrence)
    ∷ ("decision_key", map_text e.decision_key)
    ∷ ("outcome", map_text e.outcome)
    ∷ ("details", map_object e.details)
    ∷ ("category", map_text e.category)
    ∷ ("severity", map_text e.severity)
    ∷ []

-- {key: value for key, value in … if value is not None}
unfoldable pub members : Fields → Members
members [] = no_members
members ((k, none) ∷ l) = members l
members ((k, some v) ∷ l) = member k v (members l)

-- The payload of EventLog.append.
unfoldable pub payload : StoredEvent → Members
unfolding members
payload e = members (fields e)

abbrev pub lookup_option : String → Fields → Option Json
lookup_option key [] = none
lookup_option key ((k, o) ∷ l) = if str_eq k key then o else lookup_option key l

abbrev has_name : String → Fields → Bool
has_name key [] = false
has_name key ((k, o) ∷ l) = str_eq k key || has_name key l

abbrev IsOnce : Fields → Type 0
IsOnce [] = Unit
IsOnce ((k, o) ∷ l) = (has_name k l ≡ false) × IsOnce l

get-members_absent :
    (key : String) (l : Fields) → has_name key l ≡ false → get key (members l) ≡ none
unfolding get members
get-members_absent key [] h = refl
get-members_absent key ((k, none) ∷ l) h = get-members_absent key l (ground (arith, h))
get-members_absent key ((k, some v) ∷ l) h = elim (Bool-cases (str_eq k key)) [
  | inl e ↦ absurd (ground (arith, h, e))
  | inr e ↦ rw e (get-members_absent key l (ground (arith, h, e)))
]

-- A name that stands once is found with its value.
pub get-members : (key : String) (l : Fields) → IsOnce l → get key (members l) ≡ lookup_option key l
unfolding get members
get-members key [] h = refl
get-members key ((k, some v) ∷ l) h = elim (Bool-cases (str_eq k key)) [
  | inl e ↦ rw e refl
  | inr e ↦ rw e (get-members key l h.1)
]
get-members key ((k, none) ∷ l) h = elim (Bool-cases (str_eq k key)) [
  | inl e ↦
      rw e (get-members_absent key l (subst (λ j. has_name j l ≡ false) ((eq_iff k key).0 e) h.0))
  | inr e ↦ rw e (get-members key l h.1)
]

fields-IsOnce : (e : StoredEvent) → IsOnce (fields e)
fields-IsOnce e = (
  refl,
  (
    refl,
    (
      refl,
      (
        refl,
        (refl, (refl, (refl, (refl, (refl, (refl, (refl, (refl, (refl, (refl, (refl, tt))))))))))),
      ),
    ),
  ),
)

pub get-payload :
    (key : String) (e : StoredEvent) → get key (payload e) ≡ lookup_option key (fields e)
unfolding payload
get-payload key e = get-members key (fields e) (fields-IsOnce e)

-- No value that is written is null.
abbrev pub IsPlain : Option Json → Type 0
IsPlain none = Unit
IsPlain (some v) = is_null v ≡ false

map_text-IsPlain : (o : Option String) → IsPlain (map_text o)
map_text-IsPlain none = tt
map_text-IsPlain (some s) = refl

map_int-IsPlain : (o : Option ℤ) → IsPlain (map_int o)
map_int-IsPlain none = tt
map_int-IsPlain (some s) = refl

map_object-IsPlain : (o : Option Members) → IsPlain (map_object o)
map_object-IsPlain none = tt
map_object-IsPlain (some s) = refl

fields-IsPlain : (e : StoredEvent) → All (λ f. IsPlain f.1) (fields e)
fields-IsPlain e = (
  refl,
  (
    refl,
    (
      refl,
      (
        refl,
        (
          refl,
          (
            map_text-IsPlain e.fault,
            (
              map_text-IsPlain e.phase,
              (
                map_text-IsPlain e.template_fingerprint,
                (
                  map_text-IsPlain e.parameter_fingerprint,
                  (
                    map_int-IsPlain e.occurrence,
                    (
                      map_text-IsPlain e.decision_key,
                      (
                        map_text-IsPlain e.outcome,
                        (
                          map_object-IsPlain e.details,
                          (map_text-IsPlain e.category, (map_text-IsPlain e.severity, tt)),
                        ),
                      ),
                    ),
                  ),
                ),
              ),
            ),
          ),
        ),
      ),
    ),
  ),
)

lookup_option-IsPlain :
    (key : String) (l : Fields) → All (λ f. IsPlain f.1) l → IsPlain (lookup_option key l)
lookup_option-IsPlain key [] h = tt
lookup_option-IsPlain key ((k, o) ∷ l) h = elim (Bool-cases (str_eq k key)) [
  | inl e ↦ rw e h.0
  | inr e ↦ rw e (lookup_option-IsPlain key l h.1)
]

pub payload-IsPlain : (key : String) (e : StoredEvent) → IsPlain (get key (payload e))
payload-IsPlain key e =
    rw (get-payload key e) (lookup_option-IsPlain key (fields e) (fields-IsPlain e))
