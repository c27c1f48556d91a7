-- ===== src/Models/RootDoc.antt =====
-- models.py, `WriterInfo`, `RootDoc` and `HintDoc`: the bodies of markers and of the hint. What
-- pydantic writes and reads as bytes is a parameter, `dumps` and `loads`; which fields are written
-- and which are accepted is modelled.
pub mod Codec
use ducklake_serverless.Base.{
  ℕ, ◌≤◌, ◌≡◌, Text, Bytes, text, text_eq, Option, none, some, List, [], ◌∷◌, ◌++◌, Bool, true,
  false, leb, all, any, if◌then◌else◌,
}
use ducklake_serverless.Errors.{Result}
use ducklake_serverless.Models.Keys.{Uuid, max_generation, format_payload_key, format_marker_key}
use ducklake_serverless.Models.Pattern.{◌>>=◌}

pub record WriterInfo : Type 0 where
  pub lib_version : Text
  pub host : Text
  pub pid : ℕ

pub data Transport : Type 0 where
  whole chunked : Transport

-- A `datetime` is a number of ticks of one clock.
pub record RootDoc : Type 0 where
  pub generation : ℕ
  pub payload_uuid : Uuid
  pub created_at : ℕ
  pub writer : WriterInfo
  pub pins : List (Text × Text)
  pub transport : Transport
  pub payload_size : ℕ

abbrev pub payload_key : RootDoc → Result Text
payload_key doc = format_payload_key doc.generation doc.payload_uuid

abbrev pub marker_key : RootDoc → Result Text
marker_key doc = format_marker_key doc.generation

pub record HintDoc : Type 0 where
  pub generation : ℕ

-- A field's value as JSON holds it: the strings of a UUID and of a time are told apart by their
-- field, so each has its own constructor.
pub data Json : Type 0 where
  number : ℕ → Json
  string : Text → Json
  uuid : Uuid → Json
  time : ℕ → Json
  writer_object : WriterInfo → Json
  string_map : List (Text × Text) → Json

abbrev pub Fields : Type 0
Fields = List (Text × Json)

unfoldable pub find_field : Text → Fields → Option Json
find_field name [] = none
find_field name ((key, v) ∷ fields) = if text_eq key name then some v else find_field name fields

-- `extra="forbid"`: every key is a field.
unfoldable pub only_fields : List Text → Fields → Bool
only_fields names = all (λ entry. any (text_eq entry.0) names)

abbrev pub root_schema : Text
root_schema = text "ducklake-serverless-root/1"

abbrev pub hint_schema : Text
hint_schema = text "ducklake-serverless-hint/1"

abbrev pub transport_text : Transport → Text
transport_text whole = text "whole"
transport_text chunked = text "chunked"

-- `exclude = {"transport"} if self.transport == "whole" else None`
abbrev pub transport_fields : Transport → Fields
transport_fields whole = []
transport_fields chunked = (text "transport", string (transport_text chunked)) ∷ []

-- `model_dump_json(by_alias=True, exclude=exclude)`, before it is written as bytes.
unfoldable pub root_fields : RootDoc → Fields
root_fields doc =
    (text "schema", string root_schema)
    ∷ (text "generation", number doc.generation)
    ∷ (text "payload_uuid", uuid doc.payload_uuid)
    ∷ (text "created_at", time doc.created_at)
    ∷ (text "writer", writer_object doc.writer)
    ∷ (text "pins", string_map doc.pins)
    ∷ (text "payload_size", number doc.payload_size)
    ∷ transport_fields doc.transport

-- The validation of one field: its value, or the default where it has one and is missing.
unfoldable pub schema_is : Text → Option Json → Option (Unit {0})
schema_is expected none = some tt
schema_is expected (some (string s)) = if text_eq s expected then some tt else none
schema_is expected (some _) = none

unfoldable pub generation_of : Option Json → Option ℕ
generation_of (some (number n)) = if leb n max_generation then some n else none
generation_of _ = none

unfoldable pub uuid_of : Option Json → Option Uuid
uuid_of (some (uuid u)) = some u
uuid_of _ = none

unfoldable pub time_of : Option Json → Option ℕ
time_of (some (time t)) = some t
time_of _ = none

unfoldable pub writer_of : Option Json → Option WriterInfo
writer_of (some (writer_object w)) = some w
writer_of _ = none

unfoldable pub pins_of : Option Json → Option (List (Text × Text))
pins_of none = some []
pins_of (some (string_map m)) = some m
pins_of (some _) = none

unfoldable pub transport_of : Option Json → Option Transport
transport_of none = some whole
transport_of (some (string s)) =
    if text_eq s (text "whole")
    then some whole
    else if text_eq s (text "chunked")
    then some chunked
    else none
transport_of (some _) = none

unfoldable pub size_of : Option Json → Option ℕ
size_of (some (number n)) = some n
size_of _ = none

abbrev root_names : List Text
root_names =
    text "schema"
    ∷ text "generation"
    ∷ text "payload_uuid"
    ∷ text "created_at"
    ∷ text "writer"
    ∷ text "pins"
    ∷ text "transport"
    ∷ text "payload_size"
    ∷ []

-- `model_validate_json`, behind the reading of the bytes.
unfoldable pub root_of_fields : Fields → Option RootDoc
unfolding find_field only_fields schema_is generation_of uuid_of time_of writer_of pins_of
    transport_of size_of
root_of_fields fields =
    if only_fields root_names fields
    then (do
      _ ← schema_is root_schema (find_field (text "schema") fields)
      g ← generation_of (find_field (text "generation") fields)
      u ← uuid_of (find_field (text "payload_uuid") fields)
      t ← time_of (find_field (text "created_at") fields)
      w ← writer_of (find_field (text "writer") fields)
      p ← pins_of (find_field (text "pins") fields)
      k ← transport_of (find_field (text "transport") fields)
      n ← size_of (find_field (text "payload_size") fields)
      some (record {
        generation = g;
        payload_uuid = u;
        created_at = t;
        writer = w;
        pins = p;
        transport = k;
        payload_size = n;
      }))
    else none

unfoldable pub hint_fields : HintDoc → Fields
hint_fields doc =
    (text "schema", string hint_schema) ∷ (text "generation", number doc.generation) ∷ []

abbrev pub hint_names : List Text
hint_names = text "schema" ∷ text "generation" ∷ []

unfoldable pub hint_of_fields : Fields → Option HintDoc
unfolding find_field only_fields schema_is generation_of
hint_of_fields fields =
    if only_fields hint_names fields
    then (do
      _ ← schema_is hint_schema (find_field (text "schema") fields)
      g ← generation_of (find_field (text "generation") fields)
      some (record { generation = g }))
    else none

-- The bytes of JSON: pydantic's, so a parameter.
pub record JsonBytes : Type 0 where
  pub dumps : Fields → Bytes
  pub loads : Bytes → Option Fields

-- What is written is read back.
abbrev pub IsFaithful : JsonBytes → Type 0
IsFaithful j = (fields : Fields) → j.loads (j.dumps fields) ≡ some fields

module _ (json : JsonBytes) where
  unfoldable pub to_json_bytes : RootDoc → Bytes
  to_json_bytes doc = json.dumps (root_fields doc)

  -- `none` where pydantic raises ValidationError.
  unfoldable pub from_json_bytes : Bytes → Option RootDoc
  from_json_bytes body = do fields ← json.loads body; root_of_fields fields

  unfoldable pub hint_to_json_bytes : HintDoc → Bytes
  hint_to_json_bytes doc = json.dumps (hint_fields doc)

  unfoldable pub hint_from_json_bytes : Bytes → Option HintDoc
  hint_from_json_bytes body = do fields ← json.loads body; hint_of_fields fields
