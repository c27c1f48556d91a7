-- ===== src/Generation.antt =====
-- generation.py: `GenerationCache`, and the hygiene of what is published. The working directory is
-- part of the world: its pristine files, by path. A work copy is its bytes.
pub mod Files
pub mod Pristine
pub mod Keeps
use ducklake_serverless.Base.{
  ℕ, ◌*◌, Text, Bytes, text, Option, none, some, List, [], ◌∷◌, ◌++◌, Bool, true, false, ltb,
  length, take, drop, text_eq, ◌||◌, if◌then◌else◌, Dict, dict_get, dict_set, dict_pop,
}
use ducklake_serverless.Errors.{
  Error, Result, ok, err, catalog_hygiene, Exec, pure, raise, lift, handle, ◌>>=◌,
}
use ducklake_serverless.Models.Keys.{Uuid, generation_text, uuid_text, format_payload_key}
use ducklake_serverless.Models.RootDoc.{RootDoc, Transport, whole, chunked, payload_key}
use ducklake_serverless.Chunk.Transfer.{load_manifest}
use ducklake_serverless.Chunk.Reconstruct.{reconstruct}
use ducklake_serverless.Commit.Services.{Services}

abbrev pub max_catalog_bytes : ℕ
max_catalog_bytes = 256 * 1024 * 1024

abbrev pub pristine_cache_size : ℕ
pristine_cache_size = 4

-- `_pristine`, from a payload's key to the path of its pristine file, the least recently used
-- first; and the pristine files.
pub record GenerationCache : Type 0 where
  pub pristine : Dict Text
  pub files : Dict Bytes

-- Where the cache is in a world.
pub record Workdir (W : Type 0) : Type 0 where
  pub cache : W → GenerationCache
  pub set_cache : GenerationCache → W → W

-- `f"pristine-{doc.generation:08d}-{doc.payload_uuid}.duckdb"`
abbrev pub pristine_path : RootDoc → Text
pristine_path doc =
    text "pristine-"
    ++ ((generation_text doc.generation ++ (text "-" ++ uuid_text doc.payload_uuid))
        ++ text ".duckdb")

-- `self._pristine.get(key)` and `pristine.exists()`: the file's path and bytes.
unfoldable pub find_pristine : Text → GenerationCache → Option (Text × Bytes)
find_pristine key c = elim (dict_get key c.pristine) [
  | none ↦ none
  | some path ↦ elim (dict_get path c.files) [ none ↦ none | some bytes ↦ some (path, bytes) ]
]

-- `move_to_end`
unfoldable pub move_to_end : Text → Dict Text → Dict Text
move_to_end key d = elim (dict_get key d) [
  | none ↦ d
  | some path ↦ dict_pop key d ++ (key, path) ∷ []
]

-- `while len(self._pristine) > PRISTINE_CACHE_SIZE: … popitem(last=False) … unlink`
unfoldable pub evict : Dict Text → Dict Bytes → GenerationCache
evict [] files = record { pristine = []; files = files }
evict (p ∷ ps) files =
    let rest = evict ps (dict_pop p.1 files) in
    if ltb pristine_cache_size (length (p ∷ ps))
    then rest
    else record { pristine = p ∷ ps; files = files }

-- The bytes are copied before anything can be evicted again; `key` is the newest entry.
abbrev pub used : Text → GenerationCache → GenerationCache
used key c = evict (move_to_end key c.pristine) c.files

abbrev pub drop_file : Text → GenerationCache → GenerationCache
drop_file path c = record { pristine = c.pristine; files = dict_pop path c.files }

-- The new file, and its entry.
abbrev pub keep_file : RootDoc → Text → Bytes → GenerationCache → GenerationCache
keep_file doc key bytes c = record {
  pristine = dict_set key (pristine_path doc) c.pristine;
  files = dict_set (pristine_path doc) bytes c.files;
}

module _ {W : Type 0} (services : Services W) (dir : Workdir W) where
  abbrev pub change : (GenerationCache → GenerationCache) → Exec W (Unit {0})
  change f w = (ok tt, dir.set_cache (f (dir.cache w)) w)

  -- `reconstruct` removes its file when it fails.
  abbrev pub settle_reconstruct : Text → Result Bytes → Exec W Bytes
  settle_reconstruct path (ok bytes) = pure bytes
  settle_reconstruct path (err e) = do _ ← change (drop_file path); raise e

  -- `match doc.transport`
  abbrev pub download : Text → Text → Transport → Exec W Bytes
  download key path whole = do result ← services.store.get key; pure result.body
  download key path chunked = do
    manifest ← load_manifest services.store services.manifest_json key
    handle (reconstruct services.store services.sha256 manifest) (settle_reconstruct path)

  abbrev pub fill : RootDoc → Text → Option (Text × Bytes) → Exec W Bytes
  fill doc key (some pristine) = pure pristine.1
  fill doc key none = do
    bytes ← download key (pristine_path doc) doc.transport
    _ ← change (keep_file doc key bytes)
    pure bytes

  unfoldable pub fetch_copy : RootDoc → Exec W Bytes
  unfolding find_pristine
  fetch_copy doc = do
    key ← lift (payload_key doc)
    copy ← (λ w. fill doc key (find_pristine key (dir.cache w)) w)
    _ ← change (used key)
    pure copy

-- `check_hygiene`: whether a sidecar `.wal` or `.tmp` exists, and the file. `MAGIC` stands at
-- `MAGIC_OFFSET`.
unfoldable pub check_hygiene : Bool → Bool → Bytes → Result (Unit {0})
check_hygiene wal tmp catalog =
    if wal || tmp
    then err catalog_hygiene
    else if ltb max_catalog_bytes (length catalog)
    then err catalog_hygiene
    else if text_eq (drop 8 (take 12 catalog)) (text "DUCK")
    then ok tt
    else err catalog_hygiene

-- `publish_generation`
unfoldable pub publish_generation :
    {W : Type 0} → Services W → Bool → Bool → Bytes → ℕ → Uuid → Exec W Text
unfolding check_hygiene
publish_generation services wal tmp catalog generation payload_uuid = do
  _ ← lift (check_hygiene wal tmp catalog)
  key ← lift (format_payload_key generation payload_uuid)
  services.store.put_if_absent key catalog
