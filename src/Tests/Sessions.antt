-- ===== src/Tests/Sessions.antt =====
-- A lake, a blob and their commits on the lake of two generations. DuckDB is one that changes
-- nothing, and the working directory one that keeps no files.
use native.Mathlib.Nat.{add-zero}
use ducklake_serverless.Base.{
  ℕ, ◌≡◌, ◌≢◌, refl, Text, text, Bytes, none, [], ◌∷◌, List, false, text_eq, dict_get,
}
use ducklake_serverless.Errors.{ok, out_of_fuel, Post, returned}
use ducklake_serverless.Models.Digits.{pad_digits}
use ducklake_serverless.Models.Pattern.{decimal_char}
use ducklake_serverless.Models.Keys.{format_payload_key, format_marker_key, generation_text}
use ducklake_serverless.Models.Changeset.{append_only_replay}
use ducklake_serverless.Store.Markers.{Present, Later}
use ducklake_serverless.Store.Keeps.{pure-Keeps}
use ducklake_serverless.Store.Memory.{
  InMemoryObjectStore, in_memory, write_object, lookup, set_object,
}
use ducklake_serverless.Store.Memory.Protocol.{body_at, in_memory-KeepsMarkers}
use ducklake_serverless.Root.{create_marker, write_hint}
use ducklake_serverless.Root.Reading.{Later-refl, Present-below}
use ducklake_serverless.Generation.{Workdir, check_hygiene}
use ducklake_serverless.Generation.Keeps.{IsLocal}
use ducklake_serverless.Commit.Driver.{
  run_commit, run_phases, advance, mark, try_create_marker, create_marker_resolving, create_rounds,
}
use ducklake_serverless.Commit.Hooks.{HostKeeps, IsCommit}
use ducklake_serverless.Commit.Run.{run_commit_commits}
use ducklake_serverless.Commit.Policy.{transport_policy, base_manifest_of}
use ducklake_serverless.Commit.Publish.{publish_resolved, is_chunked, prepare}
use ducklake_serverless.Blob.{write}
use ducklake_serverless.Blob.Commits.{write_commits}
use ducklake_serverless.Session.{
  is_pinned, validate, check_format_unmigrated, Engine, Lake, lake_commit, transaction,
}
use ducklake_serverless.Session.Commits.{EngineKeeps, lake_commit-HooksKeep}
use ducklake_serverless.Session.Transactions.{transaction_commits}
use ducklake_serverless.Tests.Json.{codec}
use ducklake_serverless.Tests.Keys.{doc_of, some_uuid}
use ducklake_serverless.Tests.Commits.{services, services-WaitKeeps}
use ducklake_serverless.Tests.Statements.{toy, sql}
use ducklake_serverless.Tests.Lake.{
  clock, two_generations, two_generations-IsDense, second-Present, second-Committed,
}

services-HostKeeps : HostKeeps services body_at (λ u. u ≡ some_uuid)
services-HostKeeps = record {
  uuid4_law = λ w d. returned (Later-refl codec.0 body_at d, refl);
  now_law = pure-Keeps codec.0 body_at _;
  writer_law = pure-Keeps codec.0 body_at _;
  backoff_law = services-WaitKeeps;
}

-- A header of DuckDB's.
abbrev catalog : Bytes
catalog = 0 ∷ 0 ∷ 0 ∷ 0 ∷ 0 ∷ 0 ∷ 0 ∷ 0 ∷ text "DUCK"

abbrev still : Engine InMemoryObjectStore ℕ
still = record {
  duckdb_version = text "1.3";
  create = λ w. (ok 0, w);
  connect = λ work w. (ok 0, w);
  connect_read_only = λ work w. (ok 0, w);
  connect_uri = λ uri w. (ok 0, w);
  execute = λ c statement params w. (ok [], w);
  close = λ c w. (ok catalog, w);
  abandon = λ c w. (ok tt, w);
  probe_format = λ work w. (ok (text "1"), w);
  sidecars = λ work w. (ok (false, false), w);
}

abbrev no_files : Workdir InMemoryObjectStore
no_files = record { cache = λ w. record { pristine = []; files = [] }; set_cache = λ c w. w }

no_files-IsLocal : IsLocal codec.0 body_at no_files
no_files-IsLocal c w d = Later-refl codec.0 body_at d

abbrev lake : Lake InMemoryObjectStore ℕ
lake = record {
  services = services;
  workdir = no_files;
  engine = still;
  conflict_policy = append_only_replay;
  max_attempts = 5;
  chunk_threshold = none;
  s3_uri = none;
  has_credentials = false;
}

still-EngineKeeps : EngineKeeps lake body_at
still-EngineKeeps = record {
  connect_law = λ work. pure-Keeps codec.0 body_at _;
  execute_law = λ c statement params. pure-Keeps codec.0 body_at _;
  close_law = λ c. pure-Keeps codec.0 body_at _;
  abandon_law = λ c. pure-Keeps codec.0 body_at _;
  format_law = λ work. pure-Keeps codec.0 body_at _;
  sidecars_law = λ work. pure-Keeps codec.0 body_at _;
}

zero-Present : Present codec.0 body_at two_generations 0
zero-Present =
    Present-below codec.0 body_at 1 0 two_generations-IsDense (rw add-zero second-Present)

run_commit_commits_example :
    Post
      (λ r w.
        Later codec.0 body_at two_generations w
        × IsCommit services body_at (λ u. u ≡ some_uuid) 5 r w)
      (λ e w. Later codec.0 body_at two_generations w × (e ≢ out_of_fuel))
      (run_commit services
        (lake_commit lake (record { statements = [] }))
        5
        (doc_of 1)
        catalog
        two_generations)
run_commit_commits_example =
    run_commit_commits services body_at (in_memory-KeepsMarkers clock codec.0) services-HostKeeps
      codec.1 (lake_commit lake (record { statements = [] })) 5
      (lake_commit-HooksKeep lake body_at (in_memory-KeepsMarkers clock codec.0) still-EngineKeeps
        no_files-IsLocal (record { statements = [] }))
      (doc_of 1) catalog two_generations two_generations-IsDense second-Committed

write_commits_example :
    Post
      (λ r w.
        Later codec.0 body_at two_generations w
        × IsCommit services body_at (λ u. u ≡ some_uuid) 5 r w)
      (λ e w. Later codec.0 body_at two_generations w × (e ≢ out_of_fuel))
      (write services 5 none catalog two_generations)
write_commits_example =
    write_commits services body_at (in_memory-KeepsMarkers clock codec.0) services-HostKeeps codec.1
      5 none catalog two_generations two_generations-IsDense zero-Present

abbrev insert_twice : List (Text × List Text)
insert_twice = (sql, []) ∷ (sql, []) ∷ []

transaction_commits_example :
    Post
      (λ r w.
        Later codec.0 body_at two_generations w
        × IsCommit services body_at (λ u. u ≡ some_uuid) 5 r w)
      (λ e w. Later codec.0 body_at two_generations w × (e ≢ out_of_fuel))
      (transaction lake toy insert_twice two_generations)
transaction_commits_example =
    transaction_commits lake body_at (in_memory-KeepsMarkers clock codec.0) still-EngineKeeps
      no_files-IsLocal toy services-HostKeeps codec.1 insert_twice two_generations
      two_generations-IsDense zero-Present

-- The payload and the marker of the third generation are written in one attempt.
run_commits :
    (run_commit services
      (lake_commit lake (record { statements = [] }))
      5
      (doc_of 1)
      catalog
      two_generations).0
    ≡ ok (record { generation = 2; payload_uuid = some_uuid; attempts = 1 })
unfolding run_commit run_phases advance validate check_format_unmigrated is_pinned dict_get text_eq
    check_hygiene transport_policy base_manifest_of publish_resolved is_chunked prepare
    format_payload_key mark try_create_marker create_marker_resolving create_rounds create_marker
    write_hint in_memory write_object lookup set_object format_marker_key generation_text pad_digits
    decimal_char
run_commits = refl
