-- ===== src/Fsspec/Reader/RoundTrip.antt =====
-- From the chunks and packs that a payload is cut into to the ranges that are read of it.
use ducklake_serverless.Base.{
  ℕ, ◌<◌, ◌≡◌, refl, sym, ap, ◌∙◌, Text, Bytes, Option, List, [], ◌∷◌, length, take, drop, All, pos,
}
use ducklake_serverless.Errors.{external_service, Post, lift, ◌>>=◌}
use ducklake_serverless.Store.{ObjectStore}
use ducklake_serverless.Chunk.Manifest.{Manifest, ManifestEntry}
use ducklake_serverless.Chunk.Build.{build_manifest}
use ducklake_serverless.Chunk.Build.Walk.{Reads}
use ducklake_serverless.Chunk.Build.Faithful.{
  IsReadable, BaseReadable, assemble-build_manifest, build_manifest-IsReadable,
}
use ducklake_serverless.Chunk.Build.Packing.{IsCollisionFree, InStore}
use ducklake_serverless.Fsspec.Reader.{chunked_reader_of, read_range}
use ducklake_serverless.Fsspec.Reader.Runs.{HasOwnChunk}
use ducklake_serverless.Fsspec.Reader.Fetch.{ServesRanges}
use ducklake_serverless.Fsspec.Reader.Range.{read_range-assemble}

module _ (sha256 : Bytes → Text) (pack_at : Text → Option Bytes) where
  Reads-HasOwnChunk :
      (e : ManifestEntry) (c : Bytes) → Reads sha256 pack_at e c → HasOwnChunk sha256 pack_at e
  Reads-HasOwnChunk e c r body found =
      let same : r.body ≡ body = cc (r.found, found) in
      ap (λ b. sha256 (take e.length (drop e.pack_offset b))) (sym same)
      ∙ ap sha256 r.slice
      ∙ sym r.hashed

  IsReadable-HasOwnChunk :
      (es : List ManifestEntry) → IsReadable sha256 pack_at es → All (HasOwnChunk sha256 pack_at) es
  IsReadable-HasOwnChunk [] h = tt
  IsReadable-HasOwnChunk (e ∷ es) ((c, r), h) =
      (Reads-HasOwnChunk e c r, IsReadable-HasOwnChunk es h)

total_size-build_manifest :
    (sha256 : Bytes → Text) (bytes : Bytes) (base : Option Manifest) (size pack_target : ℕ)
    → (build_manifest sha256 bytes base size pack_target).0.total_size ≡ length bytes
unfolding build_manifest
total_size-build_manifest sha256 bytes base size pack_target = refl

-- If no two chunks have one hash, the chunk size is positive, the base's entries can be read from
-- its packs, the novel packs are stored and a ranged GET of a stored pack returns its slice as long
-- as the packs are there, then `read_range` over the manifest that was built for a payload returns
-- just the bytes of the payload from `start` on, `count` of them or up to its end, whatever was
-- deduplicated; it raises nothing but ExternalServiceError, and that only where a GET may fail.
pub read_range-build_manifest :
    {W : Type 0} (store : ObjectStore W) (sha256 : Bytes → Text) (pack_at : Text → Option Bytes)
    (Stays : W → Type 0) (Fails : Type 0) (bytes : Bytes) (base : Option Manifest)
    (size pack_target start count : ℕ) (w : W)
    → ServesRanges store pack_at Stays Fails
    → IsCollisionFree sha256
    → 0 < size
    → BaseReadable sha256 pack_at base
    → All (InStore sha256 pack_at) (build_manifest sha256 bytes base size pack_target).1
    → Stays w
    → Post
        (λ out u. Stays u × (out ≡ take count (drop start bytes)))
        (λ e u. (e ≡ external_service) × Fails)
        ((do
          reader ← lift (chunked_reader_of (build_manifest sha256 bytes base size pack_target).0)
          read_range store sha256 reader (pos start) (pos count))
          w)
read_range-build_manifest store sha256 pack_at Stays Fails bytes base size pack_target start count w
      serves free positive readable stored stays =
    let built = (build_manifest sha256 bytes base size pack_target).0 in
    read_range-assemble store sha256 pack_at Stays Fails serves built bytes start count w
      (assemble-build_manifest sha256 pack_at bytes base size pack_target free positive readable
        stored)
      (IsReadable-HasOwnChunk sha256 pack_at built.entries
        (build_manifest-IsReadable sha256 pack_at bytes base size pack_target free readable stored))
      (total_size-build_manifest sha256 bytes base size pack_target) stays
