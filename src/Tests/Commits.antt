-- ===== src/Tests/Commits.antt =====
-- Commits of a third generation to the lake of two.
use ducklake_serverless.Base.{◌≡◌, refl, arith, text_eq, [], none}
use ducklake_serverless.Errors.{ok, external_service, Post, Post-ok, returned}
use ducklake_serverless.Models.Digits.{pad_digits}
use ducklake_serverless.Models.Pattern.{decimal_char}
use ducklake_serverless.Models.Keys.{generation_text, marker_text, format_marker_key, uuid_eq}
use ducklake_serverless.Models.RootDoc.{to_json_bytes}
use ducklake_serverless.Models.RootDoc.Codec.{from_json_bytes-to_json_bytes}
use ducklake_serverless.Store.Markers.{Later}
use ducklake_serverless.Store.Memory.{
  InMemoryObjectStore, in_memory, lookup, set_object, write_object,
}
use ducklake_serverless.Store.Memory.Protocol.{body_at, write, in_memory-KeepsMarkers}
use ducklake_serverless.Root.{won, create_marker, resolve_marker, read_marker}
use ducklake_serverless.Root.Reading.{Later-refl, Present-Later}
use ducklake_serverless.Commit.Services.{Services}
use ducklake_serverless.Commit.Driver.{create_rounds, create_marker_resolving, try_create_marker}
use ducklake_serverless.Commit.Marker.{
  WaitKeeps, HasParent, Settled, create_marker_resolving_settles,
}
use ducklake_serverless.Commit.Winner.{
  Reported, create_marker_resolving_one_winner, try_create_marker_reports,
}
use ducklake_serverless.Tests.Json.{codec}
use ducklake_serverless.Tests.Keys.{doc_of, some_uuid}
use ducklake_serverless.Tests.Lake.{clock, two_generations, two_generations-IsDense, second-Present}

abbrev pub services : Services InMemoryObjectStore
services = record {
  store = in_memory clock;
  json = codec.0;
  manifest_json = record { dump = λ m. []; validate = λ b. none };
  sha256 = λ b. b;
  uuid4 = λ w. (ok some_uuid, w);
  now = λ w. (ok 100, w);
  writer_info = λ w. (ok (doc_of 2).writer, w);
  backoff = λ n w. (ok tt, w);
}

pub services-WaitKeeps : WaitKeeps codec.0 body_at services.backoff
services-WaitKeeps n w d = returned (Later-refl codec.0 body_at d)

two-HasParent : HasParent codec.0 body_at (doc_of 2) two_generations
two-HasParent g e = let parent : g ≡ 1 = omega arith in rw parent second-Present

create_marker_resolving_settles_example :
    Post
      (λ o w. Later codec.0 body_at two_generations w × Settled codec.0 body_at (doc_of 2) o w)
      (λ e w. Later codec.0 body_at two_generations w × (e ≡ external_service))
      (create_marker_resolving services (doc_of 2) some_uuid 0 5 two_generations)
create_marker_resolving_settles_example =
    create_marker_resolving_settles services body_at (in_memory-KeepsMarkers clock codec.0)
      services-WaitKeeps codec.1 (doc_of 2) (omega arith) 0 5 two_generations
      two_generations-IsDense two-HasParent

try_create_marker_reports_example :
    Post
      (λ r w. Later codec.0 body_at two_generations w × Reported codec.0 body_at (doc_of 2) 0 r w)
      (λ e w. Later codec.0 body_at two_generations w × (e ≡ external_service))
      (try_create_marker services (doc_of 2) some_uuid 0 5 two_generations)
try_create_marker_reports_example =
    try_create_marker_reports services body_at (in_memory-KeepsMarkers clock codec.0)
      services-WaitKeeps codec.1 (doc_of 2) 0 5 two_generations (omega arith)
      two_generations-IsDense two-HasParent

abbrev third_world : InMemoryObjectStore
third_world = write clock (marker_text 2) (to_json_bytes codec.0 (doc_of 2)) two_generations

first_run :
    create_marker_resolving services (doc_of 2) some_uuid 0 5 two_generations
    ≡ (ok won, third_world)
unfolding create_marker_resolving create_rounds create_marker resolve_marker read_marker uuid_eq
    in_memory write_object lookup set_object text_eq format_marker_key generation_text pad_digits
    decimal_char
first_run = refl

second_run :
    create_marker_resolving services (doc_of 2) some_uuid 0 5 third_world ≡ (ok won, third_world)
unfolding create_marker_resolving create_rounds create_marker resolve_marker read_marker uuid_eq
    in_memory write_object lookup set_object text_eq format_marker_key generation_text pad_digits
    decimal_char
second_run = rw (from_json_bytes-to_json_bytes codec.0 (doc_of 2) codec.1 (omega arith)) refl

third-Later : Later codec.0 body_at two_generations third_world
third-Later =
    (Post-ok
      (create_marker_resolving_settles services body_at (in_memory-KeepsMarkers clock codec.0)
        services-WaitKeeps codec.1 (doc_of 2) (omega arith) 0 5 two_generations
        two_generations-IsDense two-HasParent)
      first_run).0

third-HasParent : HasParent codec.0 body_at (doc_of 2) third_world
third-HasParent g e = Present-Later codec.0 body_at g third-Later (two-HasParent g e)

create_marker_resolving_one_winner_example : some_uuid ≡ some_uuid
create_marker_resolving_one_winner_example =
    create_marker_resolving_one_winner services body_at (in_memory-KeepsMarkers clock codec.0)
      services-WaitKeeps codec.1 (doc_of 2) (doc_of 2) 0 0 5 two_generations third_world third_world
      third_world (omega arith) refl two_generations-IsDense third-Later.dense two-HasParent
      third-HasParent first_run second_run (Later-refl codec.0 body_at third-Later.dense)
