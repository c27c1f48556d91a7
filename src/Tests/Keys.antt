-- ===== src/Tests/Keys.antt =====
-- Keys, and the bodies of markers and hints.
use ducklake_serverless.Base.{
  ℕ, ◌≡◌, ◌≢◌, refl, arith, text, none, some, ◌++◌, [], ◌∷◌, leb, ◌&&◌, ◌-◌, if◌then◌else◌,
}
use ducklake_serverless.Errors.{ok}
use ducklake_serverless.Models.Pattern.{Class}
use ducklake_serverless.Models.Keys.{
  Uuid, IsUuid, payload_text, marker_text, format_payload_key, format_marker_key, parse_payload_key,
  parse_marker_key,
}
use ducklake_serverless.Models.Keys.RoundTrip.{
  ReadsAscii, newline, parse_payload_key-format_payload_key, parse_marker_key-format_marker_key,
}
use ducklake_serverless.Models.RootDoc.{
  RootDoc, Transport, whole, chunked, from_json_bytes, to_json_bytes, hint_from_json_bytes,
  hint_to_json_bytes,
}
use ducklake_serverless.Models.RootDoc.Codec.{
  from_json_bytes-to_json_bytes, hint_from_json_bytes-hint_to_json_bytes,
}
use ducklake_serverless.Tests.Json.{codec}

unfoldable pub ascii : Class
ascii c = if leb 48 c && leb c 57 then some (c - 48) else none

ascii-ReadsAscii : ReadsAscii ascii
unfolding ascii
ascii-ReadsAscii d h = ground arith

abbrev pub some_uuid : Uuid
some_uuid = record { time_low = 1; time_mid = 2; time_hi = 3; clock_seq = 4; node = 500 }

some_uuid-IsUuid : IsUuid some_uuid
some_uuid-IsUuid = (omega arith, omega arith, omega arith, omega arith, omega arith)

parse_payload_key-format_payload_key_example :
    (parse_payload_key ascii (payload_text 7 some_uuid) ≡ ok (7, some_uuid))
    × (parse_payload_key ascii (payload_text 7 some_uuid ++ newline) ≡ ok (7, some_uuid))
    × ((g : ℕ) (u : Uuid) → format_payload_key g u ≢ ok (payload_text 7 some_uuid ++ newline))
parse_payload_key-format_payload_key_example =
    parse_payload_key-format_payload_key ascii 7 some_uuid (payload_text 7 some_uuid)
      ascii-ReadsAscii some_uuid-IsUuid (unfold format_payload_key in refl)

parse_marker_key-format_marker_key_example :
    (parse_marker_key ascii (marker_text 42) ≡ ok 42)
    × (parse_marker_key ascii (marker_text 42 ++ newline) ≡ ok 42)
parse_marker_key-format_marker_key_example =
    parse_marker_key-format_marker_key ascii 42 (marker_text 42) ascii-ReadsAscii
      (unfold format_marker_key in refl)

abbrev pub doc_with : Transport → ℕ → RootDoc
doc_with transport g = record {
  generation = g;
  payload_uuid = some_uuid;
  created_at = 100;
  writer = record { lib_version = text "1"; host = text "h"; pid = 9 };
  pins =
      (text "duckdb_storage_version", text "1.3") ∷ (text "ducklake_format_version", text "1") ∷ [];
  transport = transport;
  payload_size = 12;
}

abbrev pub doc_of : ℕ → RootDoc
doc_of = doc_with whole

from_json_bytes-to_json_bytes_example :
    from_json_bytes codec.0 (to_json_bytes codec.0 (doc_with chunked 7)) ≡ some (doc_with chunked 7)
from_json_bytes-to_json_bytes_example =
    from_json_bytes-to_json_bytes codec.0 (doc_with chunked 7) codec.1 (omega arith)

hint_from_json_bytes-hint_to_json_bytes_example :
    hint_from_json_bytes codec.0 (hint_to_json_bytes codec.0 (record { generation = 7 }))
    ≡ some (record { generation = 7 })
hint_from_json_bytes-hint_to_json_bytes_example =
    hint_from_json_bytes-hint_to_json_bytes codec.0 (record { generation = 7 }) codec.1
      (omega arith)
