-- ===== src/Tests/Lake.antt =====
-- A lake of two generations in memory.
use ducklake_serverless.Base.{ℕ, ◌≤◌, ◌≡◌, refl, arith, Bytes, none, some}
use ducklake_serverless.Errors.{external_service, Post}
use ducklake_serverless.Models.Keys.{marker_text}
use ducklake_serverless.Models.Keys.RoundTrip.{marker_text-injective}
use ducklake_serverless.Models.RootDoc.{to_json_bytes}
use ducklake_serverless.Models.RootDoc.Codec.{from_json_bytes-to_json_bytes}
use ducklake_serverless.Store.Markers.{Present, Committed, IsDense, IsNext}
use ducklake_serverless.Root.{resolve_head, gallop_discover}
use ducklake_serverless.Root.Head.{resolve_head_recent, gallop_discover_newest}
use ducklake_serverless.Tests.Json.{codec}
use ducklake_serverless.Tests.Keys.{doc_of}
use ducklake_serverless.Store.Memory.{InMemoryObjectStore, new_store, in_memory, lookup}
use ducklake_serverless.Store.Memory.Protocol.{
  body_at, body_at-write, body_at-write_other, write, write_marker-Later, in_memory-KeepsMarkers,
}

abbrev pub clock : ℕ → ℕ
clock n = n

abbrev body_of : ℕ → Bytes
body_of g = to_json_bytes codec.0 (doc_of g)

abbrev first_world : InMemoryObjectStore
first_world = write clock (marker_text 0) (body_of 0) new_store

abbrev pub two_generations : InMemoryObjectStore
two_generations = write clock (marker_text 1) (body_of 1) first_world

nothing-IsDense : IsDense codec.0 body_at new_store
unfolding lookup
nothing-IsDense = record { parent = λ g p. absurd (cc p.2); well_formed = λ g p. absurd (cc p.2) }

first_stored : body_at first_world (marker_text 0) ≡ some (body_of 0)
first_stored = body_at-write clock (marker_text 0) (marker_text 0) (body_of 0) new_store refl

first-IsNext : IsNext codec.0 body_at new_store (marker_text 0) (body_of 0) (doc_of 0)
first-IsNext = record {
  in_range = omega arith;
  key = refl;
  parsed = from_json_bytes-to_json_bytes codec.0 (doc_of 0) codec.1 (omega arith);
  parent = λ g e. absurd (omega arith);
}

first-IsDense : IsDense codec.0 body_at first_world
unfolding lookup
first-IsDense =
    (write_marker-Later clock codec.0 (marker_text 0) (body_of 0) new_store (doc_of 0) first-IsNext
      refl nothing-IsDense).dense

pub first-Present : Present codec.0 body_at first_world 0
first-Present = (omega arith, body_of 0, first_stored)

second-IsNext : IsNext codec.0 body_at first_world (marker_text 1) (body_of 1) (doc_of 1)
second-IsNext = record {
  in_range = omega arith;
  key = refl;
  parsed = from_json_bytes-to_json_bytes codec.0 (doc_of 1) codec.1 (omega arith);
  parent = λ g e. let first : g ≡ 0 = omega arith in rw first first-Present;
}

second_free : body_at first_world (marker_text 1) ≡ none
unfolding lookup
second_free =
    body_at-write_other clock (marker_text 0) (marker_text 1) (body_of 0) new_store
      (λ e. absurd (omega (arith, marker_text-injective 0 1 (omega arith) (omega arith) e)))

pub two_generations-IsDense : IsDense codec.0 body_at two_generations
two_generations-IsDense =
    (write_marker-Later clock codec.0 (marker_text 1) (body_of 1) first_world (doc_of 1)
      second-IsNext second_free first-IsDense).dense

second_stored : body_at two_generations (marker_text 1) ≡ some (body_of 1)
second_stored = body_at-write clock (marker_text 1) (marker_text 1) (body_of 1) first_world refl

pub second-Present : Present codec.0 body_at two_generations 1
second-Present = (omega arith, body_of 1, second_stored)

resolve_head_recent_example :
    Post
      (λ r w. Committed codec.0 body_at w r.1 r.0 × (1 ≤ r.1))
      (λ e w. (e ≡ external_service) × ⊥)
      (resolve_head (in_memory clock) codec.0 two_generations)
resolve_head_recent_example =
    resolve_head_recent codec.0 body_at (in_memory clock) (in_memory-KeepsMarkers clock codec.0)
      two_generations 1 two_generations-IsDense second-Present (λ w body doc l e k. omega arith)

gallop_discover_newest_example :
    Post
      (λ doc w. Committed codec.0 body_at w doc.generation doc × (1 ≤ doc.generation))
      (λ e w. (e ≡ external_service) × ⊥)
      (gallop_discover (in_memory clock) codec.0 two_generations)
gallop_discover_newest_example =
    gallop_discover_newest codec.0 body_at (in_memory clock) (in_memory-KeepsMarkers clock codec.0)
      two_generations 1 two_generations-IsDense second-Present

pub second-Committed : Committed codec.0 body_at two_generations 1 (doc_of 1)
second-Committed = record {
  in_range = omega arith;
  body = body_of 1;
  stored = second_stored;
  parsed = from_json_bytes-to_json_bytes codec.0 (doc_of 1) codec.1 (omega arith);
  generation = refl;
}
