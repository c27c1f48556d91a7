-- ===== src/Commit/Policy.antt =====
-- `transport_policy` of session.py and blob.py: payloads of some size are chunked, against the
-- manifest of the base if that is chunked.
pub mod Keeps
use ducklake_serverless.Base.{ℕ, Option, none, some}
use ducklake_serverless.Errors.{Exec, pure, lift, ◌>>=◌}
use ducklake_serverless.Models.RootDoc.{RootDoc, Transport, whole, chunked, payload_key}
use ducklake_serverless.Chunk.Manifest.{Manifest, default_pack_target}
use ducklake_serverless.Chunk.Transfer.{load_manifest}
use ducklake_serverless.Commit.Services.{Services, TransportPolicy}

module _ {W : Type 0} (services : Services W) where
  unfoldable pub base_manifest_of : RootDoc → Transport → Exec W (Option Manifest)
  unfolding load_manifest
  base_manifest_of base whole = pure none
  base_manifest_of base chunked = do
    key ← lift (payload_key base)
    manifest ← load_manifest services.store services.manifest_json key
    pure (some manifest)

  unfoldable pub transport_policy : Option ℕ → RootDoc → Exec W TransportPolicy
  unfolding base_manifest_of
  transport_policy chunk_threshold base = do
    base_manifest ← base_manifest_of base base.transport
    pure (record {
      chunk_threshold = chunk_threshold;
      base_manifest = base_manifest;
      pack_target = default_pack_target;
    })
