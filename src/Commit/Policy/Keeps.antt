-- ===== src/Commit/Policy/Keeps.antt =====
-- `transport_policy` only reads.
use ducklake_serverless.Base.{ℕ, Text, Bytes, Option, none, some}
use ducklake_serverless.Errors.{lift}
use ducklake_serverless.Models.RootDoc.{RootDoc, Transport, whole, chunked, payload_key}
use ducklake_serverless.Store.Markers.{KeepsMarkers}
use ducklake_serverless.Store.Keeps.{Keeps, pure-Keeps, bind-Keeps, lift-Keeps}
use ducklake_serverless.Chunk.Transfer.{load_manifest}
use ducklake_serverless.Chunk.Transfer.Keeps.{load_manifest-Keeps}
use ducklake_serverless.Commit.Services.{Services}
use ducklake_serverless.Commit.Policy.{base_manifest_of, transport_policy}
use ducklake_serverless.Commit.Publish.Keeps.{format_payload_key-fails}

module _ {W : Type 0} (services : Services W) (body_at : W → Text → Option Bytes) {Fails : Type 0}
    (laws : KeepsMarkers services.json body_at services.store Fails) where
  base_manifest_of-Keeps :
      (base : RootDoc) (t : Transport)
      → Keeps services.json body_at (base_manifest_of services base t)
  unfolding base_manifest_of
  base_manifest_of-Keeps base whole = pure-Keeps services.json body_at none
  base_manifest_of-Keeps base chunked =
      bind-Keeps services.json body_at (lift (payload_key base)) _
        (lift-Keeps services.json body_at (payload_key base)
          (format_payload_key-fails base.generation base.payload_uuid))
        λ key.
          bind-Keeps services.json body_at (load_manifest services.store services.manifest_json key)
            _
            (load_manifest-Keeps services.json body_at services.store laws services.manifest_json
              key)
            λ m. pure-Keeps services.json body_at (some m)

  pub transport_policy-Keeps :
      (threshold : Option ℕ) (base : RootDoc)
      → Keeps services.json body_at (transport_policy services threshold base)
  unfolding transport_policy
  transport_policy-Keeps threshold base =
      bind-Keeps services.json body_at (base_manifest_of services base base.transport) _
        (base_manifest_of-Keeps base base.transport) λ m. pure-Keeps services.json body_at _
