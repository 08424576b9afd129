-- ===== src/Store/Stored.antt =====
-- The events of a session as core/event_log.py of src/dogdb writes them: `asdict` with the JSON of the
-- details.
use mathlib.Core.Option
use dogdb.Prelude.{◌≡◌, refl, ◌∙◌, ℕ, String, Option, none, some, List, [], ◌∷◌, All}
use dogdb.Prelude.Int.{pos}
use dogdb.Prelude.Dict.{Dict}
use dogdb.Models.{Fault, fault_name, phase_name}
use dogdb.EventLog.{
  Event, EventType, fault_injected, treasure_returned, mood_changed, limit_exceeded,
  decision_evaluated, Detail, num, str, nums, faults,
}
use dogdb.EventLog.Whole.{Present, HasContext, Requires, IsWhole}
use dogdb.Store.{
  Json, int, text, array, Items, no_items, item, Members, no_members, member, StoredEvent, get,
  v2_fields, v1_fields, mood_fields, v2_context_fields,
}
use dogdb.Store.Payload.{payload, fields, map_text, map_int, lookup_option, get-payload}
use dogdb.Store.RoundTrip.{IsComplete}

unfoldable pub event_type_name : EventType → String
event_type_name fault_injected = "fault_injected"
event_type_name treasure_returned = "treasure_returned"
event_type_name mood_changed = "mood_changed"
event_type_name limit_exceeded = "limit_exceeded"
event_type_name decision_evaluated = "decision_evaluated"

unfoldable pub numbers : List ℕ → Items
numbers [] = no_items
numbers (n ∷ l) = item (int (pos n)) (numbers l)

unfoldable pub names : List Fault → Items
unfolding fault_name
names [] = no_items
names (f ∷ l) = item (text (fault_name f)) (names l)

unfoldable pub detail_json : Detail → Json
unfolding numbers names
detail_json (num n) = int (pos n)
detail_json (str s) = text s
detail_json (nums l) = array (numbers l)
detail_json (faults l) = array (names l)

unfoldable pub details_json : Dict Detail → Members
unfolding detail_json
details_json [] = no_members
details_json ((k, d) ∷ l) = member k (detail_json d) (details_json l)

-- The values of an event.
unfoldable pub stored : Event → StoredEvent
unfolding event_type_name details_json fault_name phase_name
stored e = record {
  schema_version = pos 2;
  event_id = e.event_id;
  session_id = e.session_id;
  seq = pos e.seq;
  event_type = event_type_name e.event_type;
  fault = Option.map fault_name e.fault;
  phase = Option.map phase_name e.phase;
  template_fingerprint = e.template_fingerprint;
  parameter_fingerprint = e.parameter_fingerprint;
  occurrence = Option.map (λ n. pos n) e.occurrence;
  decision_key = e.decision_key;
  outcome = e.outcome;
  details = some (details_json e.details);
  category = e.category;
  severity = e.severity;
}

-- A field is written.
abbrev IsWritten : Event → String → Type 0
IsWritten e k = (v : Json) × (get k (payload (stored e)) ≡ some v)

map_text-Present : (o : Option String) → Present o → (v : Json) × (map_text o ≡ some v)
map_text-Present (some s) h = (text s, refl)
map_text-Present none h = absurd h

name-Present {ℓ} :
    {A : Type ℓ} (f : A → String) (o : Option A)
    → Present o
    → (v : Json) × (map_text (Option.map f o) ≡ some v)
name-Present f (some a) h = (text (f a), refl)
name-Present f none h = absurd h

int-Present :
    (o : Option ℕ) → Present o → (v : Json) × (map_int (Option.map (λ n. pos n) o) ≡ some v)
int-Present (some n) h = (int (pos n), refl)
int-Present none h = absurd h

module _ (e : Event) where
  -- A field with a value that may be none, and one that is always there.
  read :
      (k : String) (o : Option Json)
      → lookup_option k (fields (stored e)) ≡ o
      → (v : Json) × (o ≡ some v)
      → IsWritten e k
  read k o h (v, q) = (v, get-payload k (stored e) ∙ h ∙ q)

  plain : (k : String) (v : Json) → lookup_option k (fields (stored e)) ≡ some v → IsWritten e k
  plain k v h = (v, get-payload k (stored e) ∙ h)

  v1_there : Present e.fault → HasContext e → All (IsWritten e) v1_fields
  unfolding stored
  v1_there f h = (
    plain "schema_version" _ refl,
    (
      plain "event_id" _ refl,
      (
        plain "session_id" _ refl,
        (
          plain "seq" _ refl,
          (
            plain "event_type" _ refl,
            (
              read "fault" _ refl (name-Present fault_name e.fault f),
              (
                read "phase" _ refl (name-Present phase_name e.phase h.0),
                (
                  read "template_fingerprint" _ refl (map_text-Present e.template_fingerprint h.1),
                  (
                    read "parameter_fingerprint" _ refl
                        (map_text-Present e.parameter_fingerprint h.2),
                    (
                      read "occurrence" _ refl (int-Present e.occurrence h.3),
                      (
                        read "decision_key" _ refl (map_text-Present e.decision_key h.4),
                        (
                          read "outcome" _ refl (map_text-Present e.outcome h.5),
                          (plain "details" _ refl, tt),
                        ),
                      ),
                    ),
                  ),
                ),
              ),
            ),
          ),
        ),
      ),
    ),
  )

  context_there : HasContext e → All (IsWritten e) v2_context_fields
  unfolding stored
  context_there h = (
    plain "schema_version" _ refl,
    (
      plain "event_id" _ refl,
      (
        plain "session_id" _ refl,
        (
          plain "seq" _ refl,
          (
            plain "event_type" _ refl,
            (
              read "phase" _ refl (name-Present phase_name e.phase h.0),
              (
                read "template_fingerprint" _ refl (map_text-Present e.template_fingerprint h.1),
                (
                  read "parameter_fingerprint" _ refl
                      (map_text-Present e.parameter_fingerprint h.2),
                  (
                    read "occurrence" _ refl (int-Present e.occurrence h.3),
                    (
                      read "decision_key" _ refl (map_text-Present e.decision_key h.4),
                      (
                        read "outcome" _ refl (map_text-Present e.outcome h.5),
                        (plain "details" _ refl, tt),
                      ),
                    ),
                  ),
                ),
              ),
            ),
          ),
        ),
      ),
    ),
  )

  mood_there : All (IsWritten e) mood_fields
  unfolding stored
  mood_there = (
    plain "schema_version" _ refl,
    (
      plain "event_id" _ refl,
      (
        plain "session_id" _ refl,
        (plain "seq" _ refl, (plain "event_type" _ refl, (plain "details" _ refl, tt))),
      ),
    ),
  )

  IsComplete-as : (t : EventType) → e.event_type ≡ t → Requires t e → IsComplete (stored e)
  unfolding stored event_type_name v2_fields
  IsComplete-as fault_injected q h = record {
    version = refl;
    required = v1_fields;
    typed = rw q refl;
    there = v1_there h.0 h.1;
  }
  IsComplete-as treasure_returned q h = record {
    version = refl;
    required = v1_fields;
    typed = rw q refl;
    there = v1_there h.0 h.1;
  }
  IsComplete-as mood_changed q h = record {
    version = refl;
    required = mood_fields;
    typed = rw q refl;
    there = mood_there;
  }
  IsComplete-as limit_exceeded q h = record {
    version = refl;
    required = v2_context_fields;
    typed = rw q refl;
    there = context_there h;
  }
  IsComplete-as decision_evaluated q h = record {
    version = refl;
    required = v2_context_fields;
    typed = rw q refl;
    there = context_there h;
  }

  -- What is written of an event that has all that its type requires can be read.
  pub IsComplete-stored : IsWhole e → IsComplete (stored e)
  IsComplete-stored h = IsComplete-as e.event_type refl h
