-- ===== src/Commit/Services.antt =====
-- What the commit driver is given: the store, the libraries and the host that it calls, and the
-- hooks of a payload kind (`CommitContext`). All of these are parameters.
use ducklake_serverless.Base.{ℕ, Text, Bytes, Option}
use ducklake_serverless.Errors.{Exec}
use ducklake_serverless.Models.Keys.{Uuid}
use ducklake_serverless.Models.RootDoc.{RootDoc, WriterInfo, JsonBytes}
use ducklake_serverless.Models.Changeset.{RebaseDecision}
use ducklake_serverless.Store.{ObjectStore}
use ducklake_serverless.Chunk.Manifest.{Manifest, ManifestJson}

-- `uuid4`, `datetime.now`, `writer_info` and the sleep of `_backoff` take time, in which other
-- clients act.
pub record Services (W : Type 0) : Type 0 where
  pub store : ObjectStore W
  pub json : JsonBytes
  pub manifest_json : ManifestJson
  pub sha256 : Bytes → Text
  pub uuid4 : Exec W Uuid
  pub now : Exec W ℕ
  pub writer_info : Exec W WriterInfo
  pub backoff : ℕ → Exec W (Unit {0})

pub record TransportPolicy : Type 0 where
  pub chunk_threshold : Option ℕ
  pub base_manifest : Option Manifest
  pub pack_target : ℕ

-- A work file stands for its bytes.
pub record CommitContext (W : Type 0) : Type 0 where
  pub validate : Bytes → RootDoc → Exec W (Unit {0})
  pub decide_rebase : ℕ → ℕ → RebaseDecision
  pub replay : Bytes → Exec W (RootDoc × Bytes)
  pub transport_policy : RootDoc → Exec W TransportPolicy
