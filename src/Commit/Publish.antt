-- ===== src/Commit/Publish.antt =====
-- commit.py, `_publish_resolved`: upload a generation's payload, whole or in chunks.
pub mod Keeps
use ducklake_serverless.Base.{
  ℕ, ◌+◌, Text, Bytes, Option, none, some, Bool, false, leb, length, if◌then◌else◌,
}
use ducklake_serverless.Errors.{
  Result, ok, err, ambiguous_cas, conflict_abort, Exec, pure, raise, lift, handle, absent_or, ◌>>=◌,
  ◌>>◌,
}
use ducklake_serverless.Models.Keys.{Uuid, format_payload_key}
use ducklake_serverless.Chunk.Manifest.{to_bytes}
use ducklake_serverless.Chunk.Size.{choose_chunk_size}
use ducklake_serverless.Chunk.Build.{build_manifest}
use ducklake_serverless.Chunk.Transfer.{publish_packs, verify_packs}
use ducklake_serverless.Commit.Services.{Services, TransportPolicy}

pub data PublishOutcome : Type 0 where
  published_whole published_chunked : ℕ → PublishOutcome
  not_landed : PublishOutcome

-- `threshold is not None and size >= threshold`
unfoldable pub is_chunked : Option ℕ → ℕ → Bool
is_chunked none size = false
is_chunked (some threshold) size = leb threshold size

module _ {W : Type 0} (services : Services W) where
  -- The body to be put at the payload key, with the outcome if it lands.
  unfoldable pub prepare : TransportPolicy → Bytes → Exec W (Bytes × PublishOutcome)
  prepare policy work =
      if is_chunked policy.chunk_threshold (length work)
      then (do
        let (manifest, packs) =
            build_manifest services.sha256 work policy.base_manifest
              (choose_chunk_size (length work) policy.base_manifest) policy.pack_target
        publish_packs services.store packs
        verify_packs services.store services.sha256 manifest packs
        body ← lift (to_bytes services.manifest_json manifest)
        pure (body, published_chunked (length work)))
      else pure (work, published_whole (length work))

  -- `except AmbiguousCasError`: look whether the PUT landed.
  abbrev pub settle_payload : Text → Bool → PublishOutcome → Result Text → Exec W PublishOutcome
  settle_payload key last landed (ok _) = pure landed
  settle_payload key last landed (err ambiguous_cas) =
      handle (services.store.get key)
        (absent_or (if last then raise conflict_abort else pure not_landed) (λ _. pure landed))
  settle_payload key last landed (err e) = raise e

  unfoldable pub publish_resolved :
      Bytes → ℕ → Uuid → ℕ → ℕ → TransportPolicy → Exec W PublishOutcome
  unfolding prepare
  publish_resolved work generation new_uuid attempt max_attempts policy = do
    key ← lift (format_payload_key generation new_uuid)
    (body, landed) ← prepare policy work
    handle (services.store.put_if_absent key body)
        (settle_payload key (leb max_attempts (attempt + 1)) landed)
