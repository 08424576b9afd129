-- ===== src/Store/RoundTrip.antt =====
-- The events that are written to a log file and read from it (core/event_log.py of src/dogdb).
use mathlib.Core.Path.{subst}
use dogdb.Prelude.{
  ◌≡◌, ap, ◌∙◌, refl, String, Option, none, some, List, [], ◌∷◌, All, Option-cases, inl, inr,
}
use dogdb.Prelude.Int.{ℤ, pos}
use dogdb.Exec.{ok}
use dogdb.Settings.{refuse_names}
use dogdb.Store.{
  Json, text, object, Members, StoredEvent, get, v2_fields, missing_fields, null_fields,
  text_option, text_value, int_option, int_value, object_option, version_of, v2_required,
  required_fields, read_fields, read_members, from_dict,
}
use dogdb.Store.Payload.{
  map_text, map_int, map_object, fields, payload, lookup_option, get-payload, IsPlain,
  payload-IsPlain,
}

-- The event has the fields that schema 2 requires of its type.
pub record IsComplete (e : StoredEvent) : Type 0 where
  pub version : e.schema_version ≡ pos 2
  pub required : List String
  pub typed : v2_fields e.event_type ≡ some required
  pub there : All (λ k. (v : Json) × (get k (payload e) ≡ some v)) required

module _ (e : StoredEvent) where
  missing_fields-payload :
      (l : List String)
      → All (λ k. (v : Json) × (get k (payload e) ≡ some v)) l
      → missing_fields l (payload e) ≡ []
  unfolding missing_fields
  missing_fields-payload [] h = refl
  missing_fields-payload (k ∷ l) h = rw (missing_fields, h.0.1) (missing_fields-payload l h.1)

  null_fields-payload : (l : List String) → null_fields l (payload e) ≡ []
  unfolding null_fields
  null_fields-payload [] = refl
  null_fields-payload (k ∷ l) = elim (Option-cases (get k (payload e))) [
    | inl f ↦ rw (null_fields, f) (null_fields-payload l)
    | inr (v, f) ↦
        rw (null_fields, f, subst IsPlain f (payload-IsPlain k e)) (null_fields-payload l)
  ]

text_option-map : (field : String) (o : Option String) → text_option field (map_text o) ≡ ok o
unfolding text_option
text_option-map field none = refl
text_option-map field (some s) = refl

int_option-map : (o : Option ℤ) → int_option (map_int o) ≡ ok o
unfolding int_option
int_option-map none = refl
int_option-map (some s) = refl

object_option-map : (o : Option Members) → object_option (map_object o) ≡ ok o
unfolding object_option
object_option-map none = refl
object_option-map (some s) = refl

module _ (e : StoredEvent) where
  text_value-payload :
      (field s : String)
      → lookup_option field (fields e) ≡ some (text s)
      → text_value field (get field (payload e)) ≡ ok s
  unfolding text_value
  text_value-payload field s h = rw (get-payload field e, h) refl

  text_option-payload :
      (field : String) (o : Option String)
      → lookup_option field (fields e) ≡ map_text o
      → text_option field (get field (payload e)) ≡ ok o
  text_option-payload field o h = rw (get-payload field e, h) (text_option-map field o)

  int_value-payload : int_value (get "seq" (payload e)) ≡ ok e.seq
  unfolding int_value
  int_value-payload = rw (get-payload "seq" e) refl

  int_option-payload : int_option (get "occurrence" (payload e)) ≡ ok e.occurrence
  int_option-payload = rw (get-payload "occurrence" e) (int_option-map e.occurrence)

  object_option-payload : object_option (get "details" (payload e)) ≡ ok e.details
  object_option-payload = rw (get-payload "details" e) (object_option-map e.details)

module _ (repr : Option Json → String) (e : StoredEvent) where
  read_fields-payload : read_fields repr e.schema_version (payload e) ≡ ok e
  unfolding read_fields
  read_fields-payload =
      rw
        (
          text_value-payload e "event_id" e.event_id refl,
          text_value-payload e "session_id" e.session_id refl,
          text_value-payload e "event_type" e.event_type refl,
          text_option-payload e "fault" e.fault refl,
          text_option-payload e "phase" e.phase refl,
          text_option-payload e "template_fingerprint" e.template_fingerprint refl,
          text_option-payload e "parameter_fingerprint" e.parameter_fingerprint refl,
          text_option-payload e "decision_key" e.decision_key refl,
          text_option-payload e "outcome" e.outcome refl,
          text_option-payload e "category" e.category refl,
          text_option-payload e "severity" e.severity refl,
          int_value-payload e,
          int_option-payload e,
          object_option-payload e,
        )
        refl

  v2_required-known :
      (l : List String)
      → v2_fields e.event_type ≡ some l
      → v2_required repr (some (text e.event_type)) ≡ ok l
  unfolding v2_required
  v2_required-known l h = rw (v2_required, h) refl

  required_fields-payload :
      (c : IsComplete e)
      → required_fields repr e.schema_version (get "event_type" (payload e)) ≡ ok c.required
  unfolding required_fields v2_required
  required_fields-payload c = rw (get-payload "event_type" e) (
      ap (λ v. required_fields repr v (some (text e.event_type))) c.version
      ∙ v2_required-known c.required c.typed)

  -- An event that has the fields that schema 2 requires of its type is read from what is written
  -- of it, with every field as it was.
  pub from_dict-payload : IsComplete e → from_dict repr (object (payload e)) ≡ ok e
  unfolding from_dict read_members version_of refuse_names
  from_dict-payload c =
      rw
        (
          read_members,
          get-payload "schema_version" e,
          required_fields-payload c,
          missing_fields-payload e c.required c.there,
          null_fields-payload e c.required,
          read_fields-payload,
        )
        refl
