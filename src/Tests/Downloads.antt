-- ===== src/Tests/Downloads.antt =====
-- Downloads from a store in which the bytes of an object are the end of its key.
use ducklake_serverless.Base.{◌≡◌, refl, Text, Bytes, none, some, [], ◌∷◌, length, drop}
use ducklake_serverless.Errors.{Exec, ok, err, external_service, object_not_found, Post, returned}
use ducklake_serverless.Store.{ObjectStore}
use ducklake_serverless.Chunk.Manifest.{Manifest, packs_prefix, format_pack_key}
use ducklake_serverless.Chunk.Build.Packing.{assemble}
use ducklake_serverless.Chunk.Reconstruct.{reconstruct}
use ducklake_serverless.Chunk.Reconstruct.Refines.{reconstruct-assemble}
use ducklake_serverless.Chunk.Reconstruct.Fetches.{ServesPacks}
use ducklake_serverless.Commit.Services.{Services}
use ducklake_serverless.Generation.{GenerationCache, Workdir}
use ducklake_serverless.Tests.Decisions.{base, own}
use ducklake_serverless.Tests.Json.{codec}
use ducklake_serverless.Tests.Keys.{doc_of, some_uuid}

-- The world is the working directory alone.
abbrev fails : {A : Type 0} → Exec GenerationCache A
fails w = (err external_service, w)

abbrev echo : ObjectStore GenerationCache
echo = record {
  get = λ key w.
      (ok (record { body = drop (length packs_prefix) key; etag = []; last_modified = none }), w);
  get_range = λ key start n. fails;
  put_if_absent = λ key body. fails;
  put_if_match = λ key body etag. fails;
  put = λ key body. fails;
  list_prefix = λ prefix. fails;
  list_meta = λ prefix. fails;
  head_meta = λ key w. (err object_not_found, w);
  delete = λ key. fails;
}

echo-ServesPacks : ServesPacks echo some (λ _. Unit) ⊥
unfolding format_pack_key
echo-ServesPacks sha body w there stays = returned (tt, (unfold format_pack_key in cc there))

abbrev empty : GenerationCache
empty = record { pristine = []; files = [] }

abbrev six_bytes : Manifest
six_bytes = record {
  chunk_size = 4;
  total_size = 6;
  file_sha256 = 1 ∷ 2 ∷ 3 ∷ 4 ∷ 5 ∷ 6 ∷ [];
  entries = base.entries;
}

six_assembled : assemble some six_bytes.entries ≡ some (1 ∷ 2 ∷ 3 ∷ 4 ∷ 5 ∷ 6 ∷ [])
unfolding assemble
six_assembled = refl

reconstruct-assemble_example :
    Post
      (λ out u. Unit × (out ≡ 1 ∷ 2 ∷ 3 ∷ 4 ∷ 5 ∷ 6 ∷ []))
      (λ e u. (e ≡ external_service) × ⊥)
      (reconstruct echo own six_bytes empty)
reconstruct-assemble_example =
    reconstruct-assemble echo own some (λ _. Unit) ⊥ echo-ServesPacks (λ sha body there. cc there)
      six_bytes (1 ∷ 2 ∷ 3 ∷ 4 ∷ 5 ∷ 6 ∷ []) empty six_assembled refl tt

abbrev at_home : Workdir GenerationCache
at_home = record { cache = λ w. w; set_cache = λ c w. c }

abbrev services : Services GenerationCache
services = record {
  store = echo;
  json = codec.0;
  manifest_json = record { dump = λ m. []; validate = λ b. none };
  sha256 = own;
  uuid4 = λ w. (ok some_uuid, w);
  now = λ w. (ok 100, w);
  writer_info = λ w. (ok (doc_of 2).writer, w);
  backoff = λ n w. (ok tt, w);
}

-- The payload of a key is what the key ends in; no payload is chunked.
abbrev Ends : Text → Bytes → Type 0
Ends key bytes = bytes ≡ drop (length packs_prefix) key

abbrev NoManifest : Text → Manifest → Type 0
NoManifest key m = ⊥
