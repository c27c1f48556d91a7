-- ===== src/Root/Head.antt =====
-- `resolve_head` returns a committed generation that is not older than the caller's knowledge, and
-- fails only without a lake or without the store.
use native.Mathlib.Nat.{add-zero}
use ducklake_serverless.Base.{
  ℕ, ◌+◌, ◌≤◌, ◌≡◌, refl, ◌⊎◌, inl, inr, Text, Bytes, Option, none, some, arith,
}
use ducklake_serverless.Errors.{
  Error, err, external_service, object_not_found, Post, returned, Post-bind, Post-handle,
  Post-absent_or, Post-weaken,
}
use ducklake_serverless.Models.Keys.{max_generation}
use ducklake_serverless.Models.RootDoc.{RootDoc, HintDoc, JsonBytes, hint_from_json_bytes}
use ducklake_serverless.Models.RootDoc.Codec.{hint_from_json_bytes-in_range}
use ducklake_serverless.Store.{ObjectStore}
use ducklake_serverless.Store.Markers.{Present, Committed, IsDense, Later, KeepsMarkers}
use ducklake_serverless.Root.{
  forward, gallop_discover, resolve_head, hint_generation, hint_result, readable_hint, start_at,
  root_hint_key, probe_cap,
}
use ducklake_serverless.Root.Reading.{
  Later-trans, Later-refl, Committed-own, read_marker-Post, Present-below,
}
use ducklake_serverless.Root.Gallop.{DiscoveryFails, gallop_discover-Post, other_error, Later-read}
use ducklake_serverless.Root.Forward.{IsRecent, forward-Post}

module _ {W : Type 0} (json : JsonBytes) (body_at : W → Text → Option Bytes) {Fails : Type 0}
    (store : ObjectStore W) (laws : KeepsMarkers json body_at store Fails) (start : W) where
  -- No hint that can still be read lags more than half the probes behind `h`.
  abbrev pub HintNear : ℕ → Type 0
  HintNear h =
      (w : W) (body : Bytes) (doc : HintDoc)
      → Later json body_at start w
      → body_at w root_hint_key ≡ some body
      → hint_from_json_bytes json body ≡ some doc
      → h ≤ doc.generation + 2047

  abbrev HintRead : Option ℕ → W → Type 0
  HintRead none w = Later json body_at start w
  HintRead (some g) w =
      Later json body_at start w × (g ≤ max_generation) × ((h : ℕ) → HintNear h → h ≤ g + 2047)

  readable :
      (body : Bytes) (w : W) (o : Option HintDoc)
      → hint_from_json_bytes json body ≡ o
      → Later json body_at start w
      → body_at w root_hint_key ≡ some body
      → HintRead (readable_hint o) w
  readable body w none e l p = l
  readable body w (some doc) e l p =
      (l, hint_from_json_bytes-in_range json body doc e, λ h near. near w body doc l p e)

  -- Whatever becomes of the hint, reading it raises nothing.
  hint_generation-Post :
      IsDense json body_at start → Post HintRead (λ _ _. ⊥) (hint_generation store json start)
  unfolding hint_generation
  hint_generation-Post d =
      Post-handle (hint_result store json)
        (Post-bind
          {R = λ body w. Later json body_at start w × (body_at w root_hint_key ≡ some body)}
          (laws.get_law root_hint_key start d) (λ r w h. returned h) (λ e w h. h))
        (λ body w h. returned (readable body w (hint_from_json_bytes json body) refl h.0 h.1))
        λ e w h. unread e w h.0 h.1
    where
      unread :
          (e : Error) (w : W)
          → Later json body_at start w
          → ((e ≡ object_not_found) × (body_at w root_hint_key ≡ none))
            ⊎ ((e ≡ external_service) × Fails)
          → Post HintRead (λ _ _. ⊥) (hint_result store json (err e) w)
      unread e w l (inl (same, _)) = rw same (returned l)
      unread e w l (inr (same, _)) = rw same (returned l)

  -- What a resolved head is: committed, and not below any marker that was there at the start, if
  -- the hint is near that marker or there is none to be read.
  abbrev pub IsResolved : RootDoc × ℕ → W → Type 0
  IsResolved = IsRecent json body_at Fails store laws start HintNear

  abbrev pub ResolveFails : Error → W → Type 0
  ResolveFails = DiscoveryFails json body_at Fails store laws start

  -- Where the forward probe starts.
  abbrev StartsAt : RootDoc → W → Type 0
  StartsAt doc w =
      Later json body_at start w
      × Committed json body_at w doc.generation doc
      × ((h : ℕ) → Present json body_at start h → HintNear h → h ≤ doc.generation + 2047)

  discovered :
      (w : W)
      → Later json body_at start w
      → Post StartsAt ResolveFails (gallop_discover store json w)
  discovered w l =
      Post-weaken (gallop_discover-Post json body_at Fails store laws start w l)
        (λ doc u h. (h.0, h.1, λ k q near. omega (arith, h.2 k q))) λ e u h. h

  start_at-Post :
      (o : Option ℕ) (w : W) → HintRead o w → Post StartsAt ResolveFails (start_at store json o w)
  start_at-Post none w l = discovered w l
  start_at-Post (some g) w h =
      Post-absent_or _ _ (read_marker-Post json body_at store laws g w h.1 h.0.dense)
        (λ doc u c. returned (
          Later-trans json body_at h.0 c.0,
          Committed-own json body_at c.1,
          λ k q near. omega (arith, h.2 k near, c.1.generation),
        ))
        (λ u a. discovered u (Later-read json body_at Fails h.0 a))
        λ e u n a. inr (other_error json body_at Fails e h.0 n a)

  forward_from :
      (doc : RootDoc) (w : W)
      → StartsAt doc w
      → Post IsResolved ResolveFails (forward store json probe_cap doc doc.generation 1 w)
  forward_from doc w h =
      Post-weaken
        (forward-Post json body_at Fails store laws start HintNear probe_cap doc doc.generation 1 w
          (omega arith) h.0 h.1 λ k q near. inr (omega (arith, h.2 k q near)))
        (λ r u k. k) λ e u k. inr k

  -- The call ends, and this is how.
  pub resolve_head-Post :
      IsDense json body_at start → Post IsResolved ResolveFails (resolve_head store json start)
  unfolding resolve_head
  resolve_head-Post d =
      Post-bind (hint_generation-Post d)
        (λ o w h. Post-bind (start_at-Post o w h) forward_from λ e u k. k) λ e w h. absurd h

  -- If the store keeps the laws of `KeepsMarkers`, the lake is dense, the marker of generation
  -- `h` is there, and no hint that can still be read lags more than 2047 generations behind
  -- it, then `resolve_head` ends, and it returns a committed document with its generation,
  -- which is `h` or later; it raises nothing but ExternalServiceError, and that only where the
  -- transport may fail.
  pub resolve_head_recent :
      (h : ℕ)
      → IsDense json body_at start
      → Present json body_at start h
      → HintNear h
      → Post
          (λ r w. Committed json body_at w r.1 r.0 × (h ≤ r.1))
          (λ e w. (e ≡ external_service) × Fails)
          (resolve_head store json start)
  resolve_head_recent h d p near =
      Post-weaken (resolve_head-Post d) (λ r w k. (k.1, k.2 h p near))
        λ e w k. elim k [
          | inl (_, no_first) ↦ absurd (no_first (Present-below json body_at h 0 d (rw add-zero p)))
          | inr u ↦ u.1
        ]

  -- If the store keeps the laws of `KeepsMarkers`, the lake is dense, and the marker of
  -- generation `h` is there, then the discovery without a hint ends, and it returns a
  -- committed document of generation `h` or later, however many generations there are; it
  -- raises nothing but ExternalServiceError, and that only where the transport may fail.
  pub gallop_discover_newest :
      (h : ℕ)
      → IsDense json body_at start
      → Present json body_at start h
      → Post
          (λ doc w. Committed json body_at w doc.generation doc × (h ≤ doc.generation))
          (λ e w. (e ≡ external_service) × Fails)
          (gallop_discover store json start)
  gallop_discover_newest h d p =
      Post-weaken
        (gallop_discover-Post json body_at Fails store laws start start (Later-refl json body_at d))
        (λ doc w k. (k.1, k.2 h p))
        λ e w k. elim k [
          | inl (_, no_first) ↦ absurd (no_first (Present-below json body_at h 0 d (rw add-zero p)))
          | inr u ↦ u.1
        ]
