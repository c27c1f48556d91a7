-- ===== src/Store/Markers.antt =====
-- What the store documents, and what the clients of one lake keep among themselves, as far as
-- markers go: each call moves to a world in which every marker is still there unchanged.
use ducklake_serverless.Base.{ℕ, suc, ◌≤◌, ◌≡◌, ◌≢◌, ◌⊎◌, Text, Bytes, Option, none, some}
use ducklake_serverless.Errors.{
  Error, external_service, object_not_found, precondition_failed, conditional_conflict,
  ambiguous_cas, Post,
}
use ducklake_serverless.Models.Keys.{marker_text, max_generation}
use ducklake_serverless.Models.RootDoc.{RootDoc, JsonBytes, from_json_bytes}
use ducklake_serverless.Store.{ObjectStore}

-- The answers of a conditional write that its caller resolves with a GET.
abbrev pub IsRefused : Error → Type 0
IsRefused e = (e ≡ precondition_failed) ⊎ ((e ≡ conditional_conflict) ⊎ (e ≡ ambiguous_cas))

module _ {W : Type 0} (json : JsonBytes) (body_at : W → Text → Option Bytes) where
  abbrev pub Present : W → ℕ → Type 0
  Present w g = (g ≤ max_generation) × (b : Bytes) × (body_at w (marker_text g) ≡ some b)

  -- The marker of generation `g` is there, and `doc` is what it says.
  pub record Committed (w : W) (g : ℕ) (doc : RootDoc) : Type 0 where
    pub in_range : g ≤ max_generation
    pub body : Bytes
    pub stored : body_at w (marker_text g) ≡ some body
    pub parsed : from_json_bytes json body ≡ some doc
    pub generation : doc.generation ≡ g

  -- Markers have no gap below the head, and each says its own generation.
  pub record IsDense (w : W) : Type 0 where
    pub parent : (g : ℕ) → Present w (suc g) → Present w g
    pub well_formed : (g : ℕ) → Present w g → (doc : RootDoc) × Committed w g doc

  -- Markers are immortal and immutable.
  abbrev pub MarkersStay : W → W → Type 0
  MarkersStay w w' =
      (g : ℕ) (b : Bytes) → body_at w (marker_text g) ≡ some b → body_at w' (marker_text g) ≡ some b

  pub record Later (w w' : W) : Type 0 where
    pub stay : MarkersStay w w'
    pub dense : IsDense w'

  abbrev pub IsNoMarker : Text → Type 0
  IsNoMarker k = (g : ℕ) → k ≢ marker_text g

  -- A marker that may be created: it says its own generation and its parent is there.
  pub record IsNext (w : W) (k : Text) (b : Bytes) (doc : RootDoc) : Type 0 where
    pub in_range : doc.generation ≤ max_generation
    pub key : k ≡ marker_text doc.generation
    pub parsed : from_json_bytes json b ≡ some doc
    pub parent : (g : ℕ) → doc.generation ≡ suc g → Present w g

  -- The calls of the commit protocol. `Fails` is empty where the transport never fails.
  pub record KeepsMarkers (store : ObjectStore W) (Fails : Type 0) : Type 0 where
    -- A GET sees the object as it is when the call ends.
    pub get_law :
        (k : Text) (w : W)
        → IsDense w
        → Post
            (λ r w'. Later w w' × (body_at w' k ≡ some r.body))
            (λ e w'.
              Later w w'
              × (((e ≡ object_not_found) × (body_at w' k ≡ none))
                  ⊎ ((e ≡ external_service) × Fails)))
            (store.get k w)
    pub head_law :
        (k : Text) (w : W)
        → IsDense w
        → Post
            (λ _ w'. Later w w')
            (λ e w'. Later w w' × ((e ≡ object_not_found) ⊎ ((e ≡ external_service) × Fails)))
            (store.head_meta k w)
    -- A PUT elsewhere leaves the markers alone.
    pub put_law :
        (k : Text) (b : Bytes) (w : W)
        → IsNoMarker k
        → IsDense w
        → Post
            (λ _ w'. Later w w')
            (λ e w'. Later w w' × ((e ≡ external_service) × Fails))
            (store.put k b w)
    -- `If-None-Match: *` elsewhere.
    pub create_law :
        (k : Text) (b : Bytes) (w : W)
        → IsNoMarker k
        → IsDense w
        → Post
            (λ _ w'. Later w w')
            (λ e w'. Later w w' × (IsRefused e ⊎ ((e ≡ external_service) × Fails)))
            (store.put_if_absent k b w)
    -- `If-None-Match: *` on a marker writes only where there is none.
    pub create_marker_law :
        (k : Text) (b : Bytes) (w : W) (doc : RootDoc)
        → IsNext w k b doc
        → IsDense w
        → Post
            (λ _ w'. Later w w' × (body_at w k ≡ none) × (body_at w' k ≡ some b))
            (λ e w'. Later w w' × (IsRefused e ⊎ ((e ≡ external_service) × Fails)))
            (store.put_if_absent k b w)
