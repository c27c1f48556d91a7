-- ===== src/Commit/Marker.antt =====
-- `create_marker_resolving` settles who owns a generation.
use ducklake_serverless.Base.{
  ℕ, zero, suc, ◌+◌, ◌≤◌, ◌<◌, ◌≡◌, ◌≢◌, ◌⊎◌, inl, inr, refl, arith, Text, Bytes, Option,
  Bool-cases, leb, if◌then◌else◌,
}
use ducklake_serverless.Errors.{
  Error, ok, err, external_service, Exec, Post, returned, raised, Post-bind, Post-handle,
  Post-absent_or, Post-weaken,
}
use ducklake_serverless.Models.Keys.{
  Uuid, uuid_eq, uuid_eq-eq, uuid_eq_refl, marker_text, max_generation,
}
use ducklake_serverless.Models.RootDoc.{RootDoc, JsonBytes, IsFaithful, to_json_bytes}
use ducklake_serverless.Models.RootDoc.Codec.{from_json_bytes-to_json_bytes}
use ducklake_serverless.Store.Markers.{
  Present, Committed, IsDense, Later, IsRefused, IsNext, KeepsMarkers,
}
use ducklake_serverless.Root.{MarkerOutcome, won, lost, absent, create_marker, resolve_marker}
use ducklake_serverless.Root.Reading.{
  format_marker_key-in_range, Later-trans, Later-refl, Present-Later, read_marker-Post,
}
use ducklake_serverless.Root.Gallop.{Unreachable, other_error}
use ducklake_serverless.Commit.Services.{Services}
use ducklake_serverless.Commit.Driver.{
  settle_marker, unless_absent, create_rounds, create_marker_resolving,
}

-- Time that passes leaves every marker where it is.
abbrev pub WaitKeeps :
    {W : Type 0} → JsonBytes → (W → Text → Option Bytes) → (ℕ → Exec W (Unit {0})) → Type 0
WaitKeeps {W} json body_at backoff =
    (n : ℕ) (w : W)
    → IsDense json body_at w
    → Post (λ _ w'. Later json body_at w w') (λ _ _. ⊥) (backoff n w)

module _ {W : Type 0} (json : JsonBytes) (body_at : W → Text → Option Bytes) (doc : RootDoc) where
  -- Whose marker is there.
  abbrev pub Owned : W → (Uuid → Type 0) → Type 0
  Owned w IsOwner =
      (d : RootDoc) × Committed json body_at w doc.generation d × IsOwner d.payload_uuid

  -- What an outcome says: won is ours, lost is someone else's, and absent is never returned.
  abbrev pub Settled : MarkerOutcome → W → Type 0
  Settled won w = Owned w (λ u. u ≡ doc.payload_uuid)
  Settled lost w = Owned w (λ u. u ≢ doc.payload_uuid)
  Settled absent w = ⊥

  abbrev pub HasParent : W → Type 0
  HasParent w = (g : ℕ) → doc.generation ≡ suc g → Present json body_at w g

module _ {W : Type 0} (services : Services W) (body_at : W → Text → Option Bytes) {Fails : Type 0}
    (laws : KeepsMarkers services.json body_at services.store Fails)
    (waits : WaitKeeps services.json body_at services.backoff) (faithful : IsFaithful services.json)
    (doc : RootDoc) (in_range : doc.generation ≤ max_generation) where
  abbrev Seen : W → MarkerOutcome → W → Type 0
  Seen start absent w = Later services.json body_at start w
  Seen start o w = Later services.json body_at start w × Settled services.json body_at doc o w

  own_marker-IsNext :
      (w : W)
      → HasParent services.json body_at doc w
      → IsNext services.json body_at w
          (marker_text doc.generation)
          (to_json_bytes services.json doc)
          doc
  own_marker-IsNext w parent = record {
    in_range = in_range;
    key = refl;
    parsed = from_json_bytes-to_json_bytes services.json doc faithful in_range;
    parent = parent;
  }

  create_marker-Post :
      (w : W)
      → IsDense services.json body_at w
      → HasParent services.json body_at doc w
      → Post
          (λ _ w'.
            Later services.json body_at w w'
            × Committed services.json body_at w' doc.generation doc)
          (λ e w'.
            Later services.json body_at w w' × (IsRefused e ⊎ ((e ≡ external_service) × Fails)))
          (create_marker services.store services.json doc w)
  unfolding create_marker
  create_marker-Post w d parent = rw (format_marker_key-in_range doc.generation in_range) (
      Post-weaken
        (laws.create_marker_law (marker_text doc.generation) (to_json_bytes services.json doc) w doc
          (own_marker-IsNext w parent) d)
        (λ _ w' h. (
          h.0,
          record {
            in_range = in_range;
            body = to_json_bytes services.json doc;
            stored = h.2;
            parsed = from_json_bytes-to_json_bytes services.json doc faithful in_range;
            generation = refl;
          },
        ))
        λ e w' h. h)

  compared :
      (start w : W) (d : RootDoc)
      → Later services.json body_at start w
      → Committed services.json body_at w doc.generation d
      → Seen start (if uuid_eq d.payload_uuid doc.payload_uuid then won else lost) w
  compared start w d l c = elim (Bool-cases (uuid_eq d.payload_uuid doc.payload_uuid)) [
    | inl same ↦ rw same (l, (d, c, uuid_eq-eq d.payload_uuid doc.payload_uuid same))
    | inr other ↦ rw other (l, (d, c, λ e. absurd (cc (other, uuid_eq_refl doc.payload_uuid, e))))
  ]

  resolve_marker-Post :
      (start w : W)
      → Later services.json body_at start w
      → Post
          (Seen start)
          (Unreachable services.json body_at Fails start)
          (resolve_marker services.store services.json doc.generation doc.payload_uuid w)
  unfolding resolve_marker
  resolve_marker-Post start w l =
      Post-absent_or _ _
        (read_marker-Post services.json body_at services.store laws doc.generation w in_range
          l.dense)
        (λ d w' h. returned (compared start w' d (Later-trans services.json body_at l h.0) h.1))
        (λ w' h. returned (Later-trans services.json body_at l h.0))
        λ e w' n h. other_error services.json body_at Fails e l n h

  -- The answer of the create, resolved where it was a refusal.
  settle_marker-Post :
      (start w : W) (e : Error)
      → Later services.json body_at start w
      → IsRefused e ⊎ ((e ≡ external_service) × Fails)
      → Post (Seen start) (Unreachable services.json body_at Fails start) (
          settle_marker services
            (resolve_marker services.store services.json doc.generation doc.payload_uuid)
            (err e)
            w)
  settle_marker-Post start w e l (inl (inl is)) = rw is (resolve_marker-Post start w l)
  settle_marker-Post start w e l (inl (inr (inl is))) = rw is (resolve_marker-Post start w l)
  settle_marker-Post start w e l (inl (inr (inr is))) = rw is (resolve_marker-Post start w l)
  settle_marker-Post start w e l (inr (is, f)) = rw is (raised (l, (refl, f)))

  created-Post :
      (start w : W)
      → Later services.json body_at start w
      → Committed services.json body_at w doc.generation doc
      → Post (Seen start) (Unreachable services.json body_at Fails start) (ok won, w)
  created-Post start w l c = returned (l, (doc, c, refl))

  HasParent-Later :
      (start w : W)
      → Later services.json body_at start w
      → HasParent services.json body_at doc start
      → HasParent services.json body_at doc w
  HasParent-Later start w l parent g e = Present-Later services.json body_at g l (parent g e)

  -- How a failing call ends: by ExternalServiceError, and in a later world.
  abbrev pub GivesUp : W → Error → W → Type 0
  GivesUp start e w = Later services.json body_at start w × (e ≡ external_service)

  abbrev SettledLater : W → MarkerOutcome → W → Type 0
  SettledLater start o w =
      Later services.json body_at start w × Settled services.json body_at doc o w

  -- Won and lost are passed on; absent goes on with the next round.
  unless_absent-Post :
      (start w : W) (again : Exec W MarkerOutcome) (o : MarkerOutcome)
      → ((u : W)
          → Later services.json body_at start u
          → Post (SettledLater start) (GivesUp start) (again u))
      → Seen start o w
      → Post (SettledLater start) (GivesUp start) (unless_absent services again o w)
  unless_absent-Post start w again won k h = returned h
  unless_absent-Post start w again lost k h = returned h
  unless_absent-Post start w again absent k h = k w h

  create_rounds-Post :
      (n : ℕ) (base max_attempts local_attempt : ℕ) (start w : W)
      → 0 < n
      → max_attempts < base + local_attempt + n
      → Later services.json body_at start w
      → HasParent services.json body_at doc start
      → Post
          (SettledLater start)
          (GivesUp start)
          (create_rounds services n doc doc.payload_uuid base max_attempts local_attempt w)
  unfolding create_rounds
  create_rounds-Post zero base top local start w some_left fuel l parent = absurd (omega arith)
  create_rounds-Post (suc n) base top local start w some_left fuel l parent =
      Post-bind
        (Post-handle
          (settle_marker services
            (resolve_marker services.store services.json doc.generation doc.payload_uuid))
          (create_marker-Post w l.dense (HasParent-Later start w l parent))
          (λ _ w' h. created-Post start w' (Later-trans services.json body_at l h.0) h.1)
          λ e w' h. settle_marker-Post start w' e (Later-trans services.json body_at l h.0) h.1)
        (λ o w' h.
          unless_absent-Post start w' _ o
            (λ u l'. elim (Bool-cases (leb top (base + (local + 1)))) [
              | inl last ↦ rw last (raised (l', refl))
              | inr more ↦ rw more (
                  Post-bind (waits (base + (local + 1)) u l'.dense)
                    (λ _ v l''.
                      create_rounds-Post n base top (local + 1) start v (ground (arith, more, fuel))
                        (omega arith) (Later-trans services.json body_at l' l'') parent)
                    λ e v h. absurd h)
            ])
            h)
        λ e w' h. (h.0, h.1.0)

  -- If the store keeps the laws of `KeepsMarkers`, waiting keeps the markers, JSON reads back
  -- what it wrote, the generation has a key, the lake is dense and has the parent's marker,
  -- then `create_marker_resolving` ends within its attempts. It returns won only if the marker
  -- of the generation is there with our UUID, and lost only if it is there with another one;
  -- it never returns absent, and it raises nothing but ExternalServiceError. No marker is lost
  -- meanwhile.
  pub create_marker_resolving_settles :
      (base_attempt max_attempts : ℕ) (w : W)
      → IsDense services.json body_at w
      → HasParent services.json body_at doc w
      → Post
          (λ o w'. Later services.json body_at w w' × Settled services.json body_at doc o w')
          (λ e w'. Later services.json body_at w w' × (e ≡ external_service))
          (create_marker_resolving services doc doc.payload_uuid base_attempt max_attempts w)
  unfolding create_marker_resolving
  create_marker_resolving_settles base top w d parent =
      create_rounds-Post (suc top) base top 0 w w (omega arith) (omega arith)
        (Later-refl services.json body_at d) parent
