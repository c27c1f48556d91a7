-- ===== src/Commit/Winner.antt =====
-- One generation has one winner, and what `_try_create_marker` reports of it.
use mathlib.Core.Path.{subst}
use ducklake_serverless.Base.{
  ℕ, ◌+◌, ◌≤◌, ◌≡◌, ◌≢◌, refl, ap, sym, ◌∙◌, arith, Text, text_eq, text_eq_iff, Bytes, Option, none,
  some,
}
use ducklake_serverless.Errors.{
  ok, external_service, Post, returned, Post-bind, Post-handle, Post-ok,
}
use ducklake_serverless.Models.Keys.{marker_text, max_generation}
use ducklake_serverless.Models.RootDoc.{RootDoc, JsonBytes, IsFaithful, hint_to_json_bytes}
use ducklake_serverless.Store.Markers.{Committed, IsDense, Later, KeepsMarkers}
use ducklake_serverless.Root.{
  MarkerOutcome, won, lost, absent, root_hint_key, write_hint, suppress_external,
}
use ducklake_serverless.Root.Reading.{Later-trans, Committed-Later}
use ducklake_serverless.Commit.Services.{Services}
use ducklake_serverless.Commit.Driver.{
  CommitResult, after_outcome, create_marker_resolving, try_create_marker,
}
use ducklake_serverless.Commit.Marker.{
  WaitKeeps, Owned, Settled, HasParent, create_marker_resolving_settles,
}

root_hint_key-IsNoMarker : (g : ℕ) → root_hint_key ≢ marker_text g
unfolding text_eq
root_hint_key-IsNoMarker g e = absurd (cc ((text_eq_iff root_hint_key (marker_text g)).1 e))

module _ {W : Type 0} (json : JsonBytes) (body_at : W → Text → Option Bytes) (doc : RootDoc)
    (attempt : ℕ) where
  -- A result says who committed which generation, at which attempt; no result says that another
  -- UUID owns it.
  abbrev pub Reported : Option CommitResult → W → Type 0
  Reported (some r) w =
      (r.generation ≡ doc.generation)
      × (r.payload_uuid ≡ doc.payload_uuid)
      × (r.attempts ≡ attempt + 1)
      × Owned json body_at doc w (λ u. u ≡ r.payload_uuid)
  Reported none w = Owned json body_at doc w (λ u. u ≢ doc.payload_uuid)

module _ {W : Type 0} (services : Services W) (body_at : W → Text → Option Bytes) {Fails : Type 0}
    (laws : KeepsMarkers services.json body_at services.store Fails)
    (waits : WaitKeeps services.json body_at services.backoff)
    (faithful : IsFaithful services.json) where
  Committed-unique :
      {w : W} {g : ℕ} {d e : RootDoc}
      → Committed services.json body_at w g d
      → Committed services.json body_at w g e
      → d ≡ e
  Committed-unique {d = d} {e = e} c k = cc (c.stored, c.parsed, k.stored, k.parsed)

  same_owner :
      (w w' : W) (a b : RootDoc)
      → a.generation ≡ b.generation
      → Later services.json body_at w w'
      → Settled services.json body_at a won w
      → Settled services.json body_at b won w'
      → a.payload_uuid ≡ b.payload_uuid
  same_owner w w' a b e l (d, c, own) (d', c', own') =
      let c'' =
        subst (λ g. Committed services.json body_at w' g d) e
          (Committed-Later services.json body_at l c) in
      sym own ∙ ap (λ (x : RootDoc). x.payload_uuid) (Committed-unique c'' c') ∙ own'

  -- If the store keeps the laws of `KeepsMarkers`, waiting keeps the markers, JSON reads back
  -- what it wrote and the generation has a key, then of two calls of
  -- `create_marker_resolving` for one generation, whichever way they interleave, both return
  -- won only if they carry the same UUID. Each begins in a dense lake with the parent's
  -- marker, and the second one to end does so in a world later than the end of the first.
  pub create_marker_resolving_one_winner :
      (a b : RootDoc) (base_a base_b max_attempts : ℕ) (start_a start_b end_a end_b : W)
      → a.generation ≤ max_generation
      → a.generation ≡ b.generation
      → IsDense services.json body_at start_a
      → IsDense services.json body_at start_b
      → HasParent services.json body_at a start_a
      → HasParent services.json body_at b start_b
      → create_marker_resolving services a a.payload_uuid base_a max_attempts start_a
        ≡ (ok won, end_a)
      → create_marker_resolving services b b.payload_uuid base_b max_attempts start_b
        ≡ (ok won, end_b)
      → Later services.json body_at end_a end_b
      → a.payload_uuid ≡ b.payload_uuid
  create_marker_resolving_one_winner a b base_a base_b top start_a start_b end_a end_b fits same
        dense_a dense_b parent_a parent_b run_a run_b l =
      let won_a =
        Post-ok
          (create_marker_resolving_settles services body_at laws waits faithful a fits base_a top
            start_a dense_a parent_a)
          run_a in
      let won_b =
        Post-ok
          (create_marker_resolving_settles services body_at laws waits faithful b (omega arith)
            base_b top start_b dense_b parent_b)
          run_b in
      same_owner end_a end_b a b same l won_a.1 won_b.1

  -- The hint is advisory: writing it raises nothing and touches no marker.
  write_hint-Post :
      (g : ℕ) (w : W)
      → IsDense services.json body_at w
      → Post
          (λ _ w'. Later services.json body_at w w')
          (λ _ _. ⊥)
          (write_hint services.store services.json g w)
  unfolding write_hint
  write_hint-Post g w d =
      Post-handle (suppress_external services.store services.json)
        (laws.put_law root_hint_key (hint_to_json_bytes services.json (record { generation = g })) w
          root_hint_key-IsNoMarker d)
        (λ _ w' l. returned l) λ e w' h. rw h.1.0 (returned h.0)

  module _ (doc : RootDoc) (attempt : ℕ) where
    after_outcome-Post :
        (w w' : W) (o : MarkerOutcome)
        → Later services.json body_at w w'
        → Settled services.json body_at doc o w'
        → Post
            (λ r u.
              Later services.json body_at w u × Reported services.json body_at doc attempt r u)
            (λ e u. Later services.json body_at w u × (e ≡ external_service))
            (after_outcome services doc doc.payload_uuid attempt o w')
    after_outcome-Post w w' won l (d, c, own) =
        Post-bind (write_hint-Post doc.generation w' l.dense)
          (λ _ u l'. returned (
            Later-trans services.json body_at l l',
            (refl, refl, refl, (d, Committed-Later services.json body_at l' c, own)),
          ))
          λ e u h. absurd h
    after_outcome-Post w w' lost l owned = returned (l, owned)
    after_outcome-Post w w' absent l h = absurd h

    -- If the store keeps the laws of `KeepsMarkers`, waiting keeps the markers, JSON reads
    -- back what it wrote, the generation has a key, the lake is dense and has the parent's
    -- marker, then `_try_create_marker` ends; it returns a result only if the marker of the
    -- document's generation is there with the document's UUID, and none only if it is there
    -- with another one. It raises nothing but ExternalServiceError, so its assertion never
    -- fails, and no marker is lost.
    pub try_create_marker_reports :
        (max_attempts : ℕ) (w : W)
        → doc.generation ≤ max_generation
        → IsDense services.json body_at w
        → HasParent services.json body_at doc w
        → Post
            (λ r u.
              Later services.json body_at w u × Reported services.json body_at doc attempt r u)
            (λ e u. Later services.json body_at w u × (e ≡ external_service))
            (try_create_marker services doc doc.payload_uuid attempt max_attempts w)
    unfolding try_create_marker
    try_create_marker_reports top w fits d parent =
        Post-bind
          (create_marker_resolving_settles services body_at laws waits faithful doc fits attempt top
            w d parent)
          (λ o u h. after_outcome-Post w u o h.0 h.1) λ e u h. h
