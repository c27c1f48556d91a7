-- ===== src/Generation/Keeps.antt =====
-- `fetch_copy` leaves the markers alone.
use ducklake_serverless.Base.{◌≢◌, Text, Bytes, Option, none, some}
use ducklake_serverless.Errors.{Error, err, out_of_fuel, lift, returned}
use ducklake_serverless.Models.RootDoc.{RootDoc, Transport, whole, chunked, payload_key}
use ducklake_serverless.Models.RootDoc.{JsonBytes}
use ducklake_serverless.Store.Markers.{IsDense, Later, KeepsMarkers}
use ducklake_serverless.Store.Keeps.{
  Keeps, pure-Keeps, raise-Keeps, bind-Keeps, handle-Keeps, lift-Keeps, get-Keeps,
}
use ducklake_serverless.Chunk.Transfer.{load_manifest}
use ducklake_serverless.Chunk.Transfer.Keeps.{load_manifest-Keeps}
use ducklake_serverless.Chunk.Reconstruct.{reconstruct}
use ducklake_serverless.Chunk.Reconstruct.Keeps.{reconstruct-Keeps}
use ducklake_serverless.Commit.Services.{Services}
use ducklake_serverless.Commit.Publish.Keeps.{format_payload_key-fails}
use ducklake_serverless.Generation.{
  GenerationCache, Workdir, pristine_path, find_pristine, change, settle_reconstruct, download,
  fill, fetch_copy, used, drop_file, keep_file,
}

-- The directory is local: what changes there changes no marker.
abbrev pub IsLocal : {W : Type 0} → JsonBytes → (W → Text → Option Bytes) → Workdir W → Type 0
IsLocal {W} json body_at dir =
    (c : GenerationCache) (w : W)
    → IsDense json body_at w
    → Later json body_at w (dir.set_cache c w)

module _ {W : Type 0} (services : Services W) (body_at : W → Text → Option Bytes) {Fails : Type 0}
    (laws : KeepsMarkers services.json body_at services.store Fails) (dir : Workdir W)
    (local : IsLocal services.json body_at dir) where
  change-Keeps :
      (f : GenerationCache → GenerationCache) → Keeps services.json body_at (change services dir f)
  change-Keeps f w d = returned (local (f (dir.cache w)) w d)

  settle_reconstruct-Keeps :
      (path : Text) (e : Error)
      → e ≢ out_of_fuel
      → Keeps services.json body_at (settle_reconstruct services dir path (err e))
  settle_reconstruct-Keeps path e n =
      bind-Keeps services.json body_at (change services dir (drop_file path)) _
        (change-Keeps (drop_file path)) λ _. raise-Keeps services.json body_at e n

  download-Keeps :
      (key path : Text) (t : Transport)
      → Keeps services.json body_at (download services dir key path t)
  download-Keeps key path whole =
      bind-Keeps services.json body_at (services.store.get key) _
        (get-Keeps services.json body_at services.store laws key)
        λ r. pure-Keeps services.json body_at r.body
  download-Keeps key path chunked =
      bind-Keeps services.json body_at (load_manifest services.store services.manifest_json key) _
        (load_manifest-Keeps services.json body_at services.store laws services.manifest_json key)
        λ m.
          handle-Keeps services.json body_at (reconstruct services.store services.sha256 m)
            (settle_reconstruct services dir path)
            (reconstruct-Keeps services.json body_at services.store laws services.sha256 m)
            (λ b. pure-Keeps services.json body_at b) λ e n. settle_reconstruct-Keeps path e n

  fill-Keeps :
      (doc : RootDoc) (key : Text) (o : Option (Text × Bytes))
      → Keeps services.json body_at (fill services dir doc key o)
  fill-Keeps doc key (some p) = pure-Keeps services.json body_at p.1
  fill-Keeps doc key none =
      bind-Keeps services.json body_at (download services dir key (pristine_path doc) doc.transport)
        _ (download-Keeps key (pristine_path doc) doc.transport)
        λ b.
          bind-Keeps services.json body_at (change services dir (keep_file doc key b)) _
            (change-Keeps (keep_file doc key b)) λ _. pure-Keeps services.json body_at b

  pub fetch_copy-Keeps : (doc : RootDoc) → Keeps services.json body_at (fetch_copy services dir doc)
  unfolding fetch_copy
  fetch_copy-Keeps doc =
      bind-Keeps services.json body_at (lift (payload_key doc)) _
        (lift-Keeps services.json body_at (payload_key doc)
          (format_payload_key-fails doc.generation doc.payload_uuid))
        λ key.
          bind-Keeps services.json body_at
            (λ w. fill services dir doc key (find_pristine key (dir.cache w)) w) _
            (λ w d. fill-Keeps doc key (find_pristine key (dir.cache w)) w d)
            λ copy.
              bind-Keeps services.json body_at (change services dir (used key)) _
                (change-Keeps (used key)) λ _. pure-Keeps services.json body_at copy
