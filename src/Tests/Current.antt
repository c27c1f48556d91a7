-- ===== src/Tests/Current.antt =====
-- A lake that can only be read, with the payload of its second generation: the world is the working
-- directory alone.
use ducklake_serverless.Base.{ℕ, ◌≡◌, Text, text, Bytes, Option, none, some, [], false}
use ducklake_serverless.Errors.{Exec, ok, err, external_service, object_not_found}
use ducklake_serverless.Models.Keys.{payload_text}
use ducklake_serverless.Models.Changeset.{append_only_replay}
use ducklake_serverless.Store.{ObjectStore, GetResult}
use ducklake_serverless.Store.Memory.{InMemoryObjectStore, Stored, lookup}
use ducklake_serverless.Store.Memory.Protocol.{body_at, write}
use ducklake_serverless.Chunk.Manifest.{Manifest}
use ducklake_serverless.Commit.Services.{Services}
use ducklake_serverless.Generation.{GenerationCache, Workdir}
use ducklake_serverless.Session.{Engine, Lake}
use ducklake_serverless.Tests.Json.{codec}
use ducklake_serverless.Tests.Keys.{doc_of, some_uuid}
use ducklake_serverless.Tests.Lake.{clock, two_generations}

abbrev catalog : Bytes
catalog = text "DUCK"

-- The lake of two generations, with the payload of the second one.
abbrev frozen : InMemoryObjectStore
frozen = write clock (payload_text 1 some_uuid) catalog two_generations

abbrev frozen_at : GenerationCache → Text → Option Bytes
frozen_at w key = body_at frozen key

abbrev fails : {A : Type 0} → Exec GenerationCache A
fails w = (err external_service, w)

abbrev answer : Option Stored → Exec GenerationCache GetResult
answer none w = (err object_not_found, w)
answer (some v) w = (ok (record { body = v.body; etag = v.etag; last_modified = none }), w)

abbrev read_only : ObjectStore GenerationCache
read_only = record {
  get = λ key. answer (lookup frozen.objects key);
  get_range = λ key start n. fails;
  put_if_absent = λ key body. fails;
  put_if_match = λ key body etag. fails;
  put = λ key body. fails;
  list_prefix = λ prefix. fails;
  list_meta = λ prefix. fails;
  head_meta = λ key. fails;
  delete = λ key. fails;
}

abbrev at_home : Workdir GenerationCache
at_home = record { cache = λ w. w; set_cache = λ c w. c }

abbrev services : Services GenerationCache
services = record {
  store = read_only;
  json = codec.0;
  manifest_json = record { dump = λ m. []; validate = λ b. none };
  sha256 = λ b. b;
  uuid4 = λ w. (ok some_uuid, w);
  now = λ w. (ok 100, w);
  writer_info = λ w. (ok (doc_of 2).writer, w);
  backoff = λ n w. (ok tt, w);
}

abbrev still : Engine GenerationCache ℕ
still = record {
  duckdb_version = text "1.3";
  create = λ w. (ok 0, w);
  connect = λ work w. (ok 0, w);
  connect_read_only = λ work w. (ok 0, w);
  connect_uri = λ uri w. (ok 0, w);
  execute = λ c statement params w. (ok [], w);
  close = λ c w. (ok catalog, w);
  abandon = λ c w. (ok tt, w);
  probe_format = λ work w. (ok (text "1"), w);
  sidecars = λ work w. (ok (false, false), w);
}

abbrev lake : Lake GenerationCache ℕ
lake = record {
  services = services;
  workdir = at_home;
  engine = still;
  conflict_policy = append_only_replay;
  max_attempts = 5;
  chunk_threshold = none;
  s3_uri = none;
  has_credentials = false;
}

-- What is right for a key is what is stored at it; no payload is chunked.
abbrev IsStored : Text → Bytes → Type 0
IsStored key bytes = body_at frozen key ≡ some bytes

abbrev NoManifest : Text → Manifest → Type 0
NoManifest key m = ⊥

abbrev empty : GenerationCache
empty = record { pristine = []; files = [] }
