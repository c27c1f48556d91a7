-- ===== src/Chunk/Reconstruct/Fetches.antt =====
-- The packs that `reconstruct` fetches, where the store has them.
use ducklake_serverless.Base.{
  ◌≡◌, refl, arith, Text, Bytes, text_eq_iff, text_eq_refl, Option, none, some, List, [], ◌∷◌, All,
}
use ducklake_serverless.Errors.{Error, external_service, Post, returned, Post-bind}
use ducklake_serverless.Store.{ObjectStore}
use ducklake_serverless.Chunk.Manifest.{format_pack_key}
use ducklake_serverless.Chunk.Reconstruct.{body_get, fetch, fetch_all}

-- The store while the packs are there: whatever else happens, a GET of a stored pack returns it.
abbrev pub ServesPacks :
    {W : Type 0} → ObjectStore W → (Text → Option Bytes) → (W → Type 0) → Type 0 → Type 0
ServesPacks {W} store pack_at Stays Fails =
    (sha : Text) (body : Bytes) (w : W)
    → pack_at sha ≡ some body
    → Stays w
    → Post (λ r w'. Stays w' × (r.body ≡ body)) (λ e w'. (e ≡ external_service) × Fails)
        (store.get (format_pack_key sha) w)

-- Each pack hashes to its name.
abbrev pub HasOwnHash : (Bytes → Text) → (Text → Option Bytes) → Type 0
HasOwnHash sha256 pack_at =
    (sha : Text) (body : Bytes) → pack_at sha ≡ some body → sha256 body ≡ sha

module _ (pack_at : Text → Option Bytes) where
  -- The slot and the bodies of a window hold packs of the store.
  abbrev pub Holds : Text × Bytes → Type 0
  Holds (sha, body) = pack_at sha ≡ some body

  abbrev pub SlotHolds : Option (Text × Bytes) → Type 0
  SlotHolds none = Unit
  SlotHolds (some slot) = Holds slot

  abbrev pub InStore : Text → Type 0
  InStore sha = (body : Bytes) × (pack_at sha ≡ some body)

module _ {W : Type 0} (store : ObjectStore W) (sha256 : Bytes → Text)
    (pack_at : Text → Option Bytes) (Stays : W → Type 0) (Fails : Type 0)
    (serves : ServesPacks store pack_at Stays Fails) (own_hash : HasOwnHash sha256 pack_at) where
  abbrev Failed : Error → W → Type 0
  Failed e w = (e ≡ external_service) × Fails

  pub fetch-Post :
      (sha : Text) (body : Bytes) (w : W)
      → pack_at sha ≡ some body
      → Stays w
      → Post (λ r u. Stays u × (r ≡ (sha, body))) Failed (fetch store sha256 sha w)
  unfolding fetch
  fetch-Post sha body w there stays =
      Post-bind (serves sha body w there stays)
        (λ r u h. rw (h.1, own_hash sha body there, text_eq_refl sha) (returned (h.0, refl)))
        λ e u h. h

  pub fetch_all-Post :
      (window : List Text) (w : W)
      → All (InStore pack_at) window
      → Stays w
      → Post
          (λ bodies u. Stays u × All (Holds pack_at) bodies)
          Failed
          (fetch_all store sha256 window w)
  unfolding fetch_all
  fetch_all-Post [] w there stays = returned (stays, tt)
  fetch_all-Post (sha ∷ window) w there stays =
      Post-bind (fetch-Post sha there.0.0 w there.0.1 stays)
        (λ r u h.
          Post-bind (fetch_all-Post window u there.1 h.0)
            (λ bodies v k. returned (k.0, (rw h.1 there.0.1, k.1))) λ e v k. k)
        λ e u h. h

  pub body_get-Holds :
      (bodies : List (Text × Bytes)) (sha : Text) (body : Bytes)
      → All (Holds pack_at) bodies
      → body_get bodies sha ≡ some body
      → pack_at sha ≡ some body
  unfolding body_get
  body_get-Holds [] sha body h e = absurd (cc e)
  body_get-Holds ((k, b) ∷ bodies) sha body h e =
      ground (arith, h.0, text_eq_iff k sha, body_get-Holds bodies sha body h.1)
