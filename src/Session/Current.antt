-- ===== src/Session/Current.antt =====
-- The base of a transaction, and the copy of its payload that the transaction works on.
use ducklake_serverless.Base.{◌≡◌, Text, Bytes}
use ducklake_serverless.Errors.{Result, ok, Post}
use ducklake_serverless.Models.RootDoc.{RootDoc, payload_key}
use ducklake_serverless.Chunk.Manifest.{Manifest}
use ducklake_serverless.Generation.Files.{IsPristine}
use ducklake_serverless.Generation.Pristine.{Downloads, SameCache}
use ducklake_serverless.Session.{Lake}

module _ {W Connection : Type 0} (lake : Lake W Connection) (Right : Text → Bytes → Type 0)
    (IsManifest : Text → Manifest → Type 0)
    (downloads : Downloads lake.services lake.workdir Right IsManifest)
    (get_law : (key : Text) (w : W)
      → Post
          (λ _ w'. SameCache lake.services lake.workdir Right IsManifest w w')
          (λ _ w'. SameCache lake.services lake.workdir Right IsManifest w w')
          (lake.services.store.get key w)) where
  abbrev pub HoldsPristine : W → Type 0
  HoldsPristine w = IsPristine Right (lake.workdir.cache w)

  -- The copy is right for the payload of the base.
  abbrev pub IsCopyOf : RootDoc × Bytes → Type 0
  IsCopyOf r = (key : Text) × (payload_key r.0 ≡ ok key) × Right key r.1

  abbrev CopyPost : {A : Type 0} → (A → Type 0) → Result A × W → Type 0
  CopyPost Q = Post (λ a w. HoldsPristine w × Q a) (λ _ w. HoldsPristine w)
