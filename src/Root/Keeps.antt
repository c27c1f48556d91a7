-- ===== src/Root/Keeps.antt =====
-- Reading the head in a lake that has one.
use ducklake_serverless.Base.{inl, inr, Text, Bytes, Option}
use ducklake_serverless.Errors.{Post, Post-weaken}
use ducklake_serverless.Models.RootDoc.{JsonBytes}
use ducklake_serverless.Store.{ObjectStore}
use ducklake_serverless.Store.Markers.{Present, Committed, IsDense, Later, KeepsMarkers}
use ducklake_serverless.Store.Keeps.{Fallen}
use ducklake_serverless.Root.{resolve_head}
use ducklake_serverless.Root.Reading.{Committed-own}
use ducklake_serverless.Root.Head.{resolve_head-Post}

module _ {W : Type 0} (json : JsonBytes) (body_at : W → Text → Option Bytes) {Fails : Type 0}
    (store : ObjectStore W) (laws : KeepsMarkers json body_at store Fails) where
  -- The head is committed, and only the transport can fail.
  pub resolve_head-Keeps :
      (w : W)
      → IsDense json body_at w
      → Present json body_at w 0
      → Post
          (λ r w'. Later json body_at w w' × Committed json body_at w' r.0.generation r.0)
          (Fallen json body_at w)
          (resolve_head store json w)
  resolve_head-Keeps w d first =
      Post-weaken (resolve_head-Post json body_at store laws w d)
        (λ r u h. (h.0, Committed-own json body_at h.1))
        λ e u h. elim h [
          | inl (_, no_first) ↦ absurd (no_first first)
          | inr (l, is) ↦ (l, λ same. absurd (cc (is.0, same)))
        ]
