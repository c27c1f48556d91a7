-- ===== src/Models/RootDoc/Codec.antt =====
-- Markers and hints are read back as they were written.
use ducklake_serverless.Models.Pattern.{>>=-eq-some}
use ducklake_serverless.Base.{ℕ, Bytes, Option, none, ◌≤◌, ◌≡◌, some, arith, text, text_eq, le→leb}
use ducklake_serverless.Models.Keys.{max_generation}
use ducklake_serverless.Models.RootDoc.{
  RootDoc, HintDoc, Transport, whole, chunked, root_fields, root_of_fields, hint_fields,
  hint_of_fields, JsonBytes, IsFaithful, to_json_bytes, from_json_bytes, hint_to_json_bytes,
  hint_from_json_bytes, find_field, Fields, Json, number, generation_of,
}

root_of_fields-root_fields :
    (doc : RootDoc) (k : Transport)
    → doc.generation ≤ max_generation
    → root_of_fields (root_fields (record doc { transport = k }))
      ≡ some (record doc { transport = k })
unfolding root_of_fields root_fields text_eq
root_of_fields-root_fields doc whole h = simp (le→leb, h)
root_of_fields-root_fields doc chunked h = simp (le→leb, h)

-- If JSON reads back what it wrote and the generation has a key, a marker's body is read back
-- as the document that was written, with its transport, which is left out of the body of a
-- whole-file generation.
pub from_json_bytes-to_json_bytes :
    (json : JsonBytes) (doc : RootDoc)
    → IsFaithful json
    → doc.generation ≤ max_generation
    → from_json_bytes json (to_json_bytes json doc) ≡ some doc
unfolding from_json_bytes to_json_bytes
from_json_bytes-to_json_bytes json doc f h =
    rw (f (root_fields doc)) (root_of_fields-root_fields doc doc.transport h)

-- If JSON reads back what it wrote and the generation has a key, a hint's body is read back as
-- the generation that was written.
pub hint_from_json_bytes-hint_to_json_bytes :
    (json : JsonBytes) (doc : HintDoc)
    → IsFaithful json
    → doc.generation ≤ max_generation
    → hint_from_json_bytes json (hint_to_json_bytes json doc) ≡ some doc
unfolding hint_from_json_bytes hint_to_json_bytes hint_of_fields hint_fields text_eq
hint_from_json_bytes-hint_to_json_bytes json doc f h = simp (f, le→leb, h)

generation_of-in_range : (o : Option Json) {g : ℕ} → generation_of o ≡ some g → g ≤ max_generation
unfolding generation_of
generation_of-in_range none e = absurd (cc e)
generation_of-in_range (some (number n)) e = ground arith
generation_of-in_range (some v) e = absurd (cc e)

hint_of_fields-in_range :
    (fields : Fields) (doc : HintDoc)
    → hint_of_fields fields ≡ some doc
    → doc.generation ≤ max_generation
unfolding hint_of_fields
hint_of_fields-in_range fields doc e =
    ground
      (arith, generation_of-in_range (find_field (text "generation") fields) {g = doc.generation})

-- A hint that is accepted names a generation that has a key.
pub hint_from_json_bytes-in_range :
    (json : JsonBytes) (body : Bytes) (doc : HintDoc)
    → hint_from_json_bytes json body ≡ some doc
    → doc.generation ≤ max_generation
unfolding hint_from_json_bytes
hint_from_json_bytes-in_range json body doc e =
    let (fields, _, e') = >>=-eq-some (json.loads body) hint_of_fields e in
    hint_of_fields-in_range fields doc e'
