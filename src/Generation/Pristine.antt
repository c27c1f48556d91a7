-- ===== src/Generation/Pristine.antt =====
-- The pristine cache: few files, each with the bytes of the generation that it is named for.
use ducklake_serverless.Base.{◌≡◌, Text, Bytes, All}
use ducklake_serverless.Errors.{Result, ok, Post}
use ducklake_serverless.Models.RootDoc.{RootDoc, whole, chunked, payload_key}
use ducklake_serverless.Chunk.Manifest.{Manifest}
use ducklake_serverless.Chunk.Transfer.{load_manifest}
use ducklake_serverless.Chunk.Reconstruct.{reconstruct}
use ducklake_serverless.Commit.Services.{Services}
use ducklake_serverless.Generation.{GenerationCache, Workdir}
use ducklake_serverless.Generation.Files.{IsNamed, HoldsRight, IsPristine}

module _ {W : Type 0} (services : Services W) (dir : Workdir W) (Right : Text → Bytes → Type 0)
    (IsManifest : Text → Manifest → Type 0) where
  abbrev pub SameCache : W → W → Type 0
  SameCache w w' = dir.cache w' ≡ dir.cache w

  -- What the cache relies on: the directory is its own, and what is downloaded under a payload's
  -- key is right for that key.
  pub record Downloads : Type 0 where
    pub cache_law : (c : GenerationCache) (w : W) → dir.cache (dir.set_cache c w) ≡ c
    pub whole_law :
        (doc : RootDoc) (key : Text) (w : W)
        → payload_key doc ≡ ok key
        → doc.transport ≡ whole
        → Post
            (λ r w'. SameCache w w' × Right key r.body)
            (λ _ w'. SameCache w w')
            (services.store.get key w)
    pub manifest_law :
        (doc : RootDoc) (key : Text) (w : W)
        → payload_key doc ≡ ok key
        → doc.transport ≡ chunked
        → Post
            (λ m w'. SameCache w w' × IsManifest key m)
            (λ _ w'. SameCache w w')
            (load_manifest services.store services.manifest_json key w)
    pub reconstruct_law :
        (key : Text) (m : Manifest) (w : W)
        → IsManifest key m
        → Post
            (λ b w'. SameCache w w' × Right key b)
            (λ _ w'. SameCache w w')
            (reconstruct services.store services.sha256 m w)

  module _ (downloads : Downloads) where
    abbrev KeptPost : {A : Type 0} → (A → W → Type 0) → Result A × W → Type 0
    KeptPost Q = Post Q (λ e w'. IsPristine Right (dir.cache w'))

    -- Before the eviction the cache may have one entry too many.
    abbrev Filled : Text → Bytes → W → Type 0
    Filled key b w =
        All IsNamed (dir.cache w).pristine × HoldsRight Right (dir.cache w).files × Right key b
