-- ===== src/Chunk/Manifest.antt =====
-- chunk.py, `format_pack_key` to `Manifest.chunk_index`: manifests and the keys of packs. SHA-256 and
-- the bytes of JSON are parameters.
use ducklake_serverless.Base.{
  ℕ, ◌*◌, Text, Bytes, text, text_eq, strip_prefix, Option, none, some, List, [], ◌∷◌, ◌++◌, map,
  Bool, true, false, ◌&&◌, all, ltb, ◌==◌, length, if◌then◌else◌,
}
use ducklake_serverless.Errors.{Result, ok, err, input_validation, catalog_hygiene}
use ducklake_serverless.Models.Pattern.{hex_value}

abbrev pub packs_prefix : Text
packs_prefix = text "packs/"

-- `b"DLSM1\n"`
abbrev pub manifest_magic : Bytes
manifest_magic = text "DLSM1" ++ 10 ∷ []

abbrev pub default_chunk_size : ℕ
default_chunk_size = 64 * 1024

abbrev pub default_pack_target : ℕ
default_pack_target = 8 * 1024 * 1024

abbrev pub max_entries : ℕ
max_entries = 131_072

abbrev pub max_manifest_bytes : ℕ
max_manifest_bytes = 256 * 1024 * 1024

unfoldable pub format_pack_key : Text → Text
format_pack_key sha = packs_prefix ++ sha

-- `c in "0123456789abcdef"`
abbrev pub is_hex : ℕ → Bool
is_hex c = elim (hex_value c) [ none ↦ false | some _ ↦ true ]

unfoldable pub is_sha256_hex : Text → Bool
unfolding hex_value
is_sha256_hex s = length s == 64 && all is_hex s

unfoldable pub parse_pack_key : Text → Result Text
parse_pack_key key = elim (strip_prefix packs_prefix key) [
  | none ↦ err input_validation
  | some rest ↦ if is_sha256_hex rest then ok rest else err input_validation
]

pub record ManifestEntry : Type 0 where
  pub chunk_sha256 : Text
  pub pack_sha256 : Text
  pub pack_offset : ℕ
  pub length : ℕ

pub record Manifest : Type 0 where
  pub chunk_size : ℕ
  pub total_size : ℕ
  pub file_sha256 : Text
  pub entries : List ManifestEntry

-- The keys of the packs, in the order of the entries; the source collects them in a set.
unfoldable pub pack_keys : Manifest → List Text
pack_keys m = map (λ (e : ManifestEntry). format_pack_key e.pack_sha256) m.entries

-- `chunk_index().get(sha)`: of entries with the same chunk the last is kept.
unfoldable pub index_get : Text → List ManifestEntry → Option ManifestEntry
index_get sha [] = none
index_get sha (e ∷ es) = elim (index_get sha es) [
  | some later ↦ some later
  | none ↦ if text_eq e.chunk_sha256 sha then some e else none
]

-- pydantic's bytes of a manifest: `model_dump_json` and `model_validate_json`.
pub record ManifestJson : Type 0 where
  pub dump : Manifest → Bytes
  pub validate : Bytes → Option Manifest

module _ (json : ManifestJson) where
  unfoldable pub to_bytes : Manifest → Result Bytes
  to_bytes m =
      let body = manifest_magic ++ json.dump m in
      if ltb max_manifest_bytes (length body) then err catalog_hygiene else ok body

  unfoldable pub from_bytes : Bytes → Result Manifest
  from_bytes bytes = elim (strip_prefix manifest_magic bytes) [
    | none ↦ err input_validation
    | some rest ↦ elim (json.validate rest) [ none ↦ err input_validation | some m ↦ ok m ]
  ]

  -- `none` where `from_bytes` raises InputValidationError, the only error that it has.
  unfoldable pub sniff_manifest : Bytes → Option Manifest
  sniff_manifest bytes = elim (from_bytes bytes) [ ok m ↦ some m | err _ ↦ none ]
