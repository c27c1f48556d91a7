-- ===== src/Commit/Publish/Keeps.antt =====
-- `_publish_resolved` leaves the markers alone, and reports a payload that has not landed only
-- while attempts are left.
use ducklake_serverless.Base.{
  ℕ, ◌+◌, ◌≤◌, ◌<◌, ◌≡◌, ◌≢◌, inl, inr, arith, Text, Bytes, Option, Bool-cases, leb, length,
}
use ducklake_serverless.Errors.{
  Error, err, ambiguous_cas, out_of_fuel, pure, lift, handle, absent_or, is_object_not_found, Post,
  returned, raised, Post-handle, Post-weaken, Result-cases,
}
use ducklake_serverless.Models.Keys.{Uuid, format_payload_key, payload_text, max_generation}
use ducklake_serverless.Models.Keys.RoundTrip.{format_payload_key-eq-ok}
use ducklake_serverless.Chunk.Manifest.{Manifest, to_bytes}
use ducklake_serverless.Chunk.Build.{build_manifest}
use ducklake_serverless.Chunk.Size.{choose_chunk_size}
use ducklake_serverless.Chunk.Transfer.{publish_packs, verify_packs}
use ducklake_serverless.Chunk.Transfer.Keeps.{publish_packs-Keeps, verify_packs-Keeps}
use ducklake_serverless.Store.Markers.{IsDense, Later, KeepsMarkers}
use ducklake_serverless.Store.Keeps.{
  Fallen, after-KeepsWith, bind-KeepsWith, lift-Keeps, get-Keeps, create-Keeps,
  payload_text-IsNoMarker,
}
use ducklake_serverless.Root.Reading.{Later-trans, Later-refl}
use ducklake_serverless.Commit.Services.{Services, TransportPolicy}
use ducklake_serverless.Commit.Publish.{
  PublishOutcome, not_landed, is_chunked, prepare, settle_payload, publish_resolved,
}

pub format_payload_key-fails : (g : ℕ) (u : Uuid) → format_payload_key g u ≢ err out_of_fuel
unfolding format_payload_key
format_payload_key-fails g u e = ground (arith, e)

module _ {W : Type 0} (services : Services W) (body_at : W → Text → Option Bytes) {Fails : Type 0}
    (laws : KeepsMarkers services.json body_at services.store Fails) where
  -- A payload that has not landed is reported only while attempts are left.
  abbrev pub HasTime : ℕ → ℕ → PublishOutcome → Type 0
  HasTime attempt max_attempts o = o ≡ not_landed → attempt + 1 < max_attempts

  to_bytes-fails : (m : Manifest) → to_bytes services.manifest_json m ≢ err out_of_fuel
  unfolding to_bytes
  to_bytes-fails m e = ground (arith, e)

  prepare-Keeps :
      (policy : TransportPolicy) (work : Bytes) (w : W)
      → IsDense services.json body_at w
      → Post
          (λ r w'. Later services.json body_at w w' × (r.1 ≢ not_landed))
          (Fallen services.json body_at w)
          (prepare services policy work w)
  unfolding prepare
  prepare-Keeps policy work w d =
      elim (Bool-cases (is_chunked policy.chunk_threshold (length work))) [
        | inl chunks ↦ rw chunks (
            let built =
              build_manifest services.sha256 work policy.base_manifest
                (choose_chunk_size (length work) policy.base_manifest) policy.pack_target in
            after-KeepsWith services.json body_at w (publish_packs services.store built.1) _ d
              (publish_packs-Keeps services.json body_at services.store laws built.1)
              λ _ v l.
                after-KeepsWith services.json body_at v
                  (verify_packs services.store services.sha256 built.0 built.1) _ l.dense
                  (verify_packs-Keeps services.json body_at services.store laws services.sha256
                    built.0 built.1)
                  λ _ u l'.
                    after-KeepsWith services.json body_at u
                      (lift (to_bytes services.manifest_json built.0)) _ l'.dense
                      (lift-Keeps services.json body_at (to_bytes services.manifest_json built.0)
                        (to_bytes-fails built.0))
                      λ body t l''.
                        returned (Later-refl services.json body_at l''.dense, λ e. absurd (cc e)))
        | inr whole ↦ rw whole (returned (Later-refl services.json body_at d, λ e. absurd (cc e)))
      ]

  module _ (attempt max_attempts : ℕ) where
    reported :
        (o : PublishOutcome) (w : W)
        → IsDense services.json body_at w
        → o ≢ not_landed
        → Post
            (λ o w'. Later services.json body_at w w' × HasTime attempt max_attempts o)
            (Fallen services.json body_at w)
            (pure o w)
    reported o w d n = returned (Later-refl services.json body_at d, λ e. absurd (n e))

    settle_payload-Keeps :
        (key : Text) (landed : PublishOutcome) (e : Error) (w : W)
        → IsDense services.json body_at w
        → landed ≢ not_landed
        → e ≢ out_of_fuel
        → Post
            (λ o w'. Later services.json body_at w w' × HasTime attempt max_attempts o)
            (Fallen services.json body_at w)
            (settle_payload services key (leb max_attempts (attempt + 1)) landed (err e) w)
    settle_payload-Keeps key landed ambiguous_cas w d n k =
        Post-handle (absent_or _ _) (get-Keeps services.json body_at services.store laws key w d)
          (λ r v l. returned (l, λ e. absurd (n e)))
          λ e v h. elim (Bool-cases (is_object_not_found e)) [
            | inr other ↦ rw other (raised h)
            | inl gone ↦ rw gone (elim (Bool-cases (leb max_attempts (attempt + 1))) [
              | inl last ↦ rw last (raised (h.0, λ e. cc e))
              | inr more ↦ rw more (returned (h.0, λ e. ground (arith, more)))
            ])
          ]
    settle_payload-Keeps key landed e w d n k = raised (Later-refl services.json body_at d, k)

    put-Keeps :
        (g : ℕ) (u : Uuid) (fits : g ≤ max_generation) (body : Bytes) (landed : PublishOutcome)
        (w : W)
        → IsDense services.json body_at w
        → landed ≢ not_landed
        → Post
            (λ o w'.
              Later services.json body_at w w'
              × (HasTime attempt max_attempts o × (g ≤ max_generation)))
            (Fallen services.json body_at w)
            (handle
              (services.store.put_if_absent (payload_text g u) body)
              (settle_payload services (payload_text g u) (leb max_attempts (attempt + 1)) landed)
              w)
    put-Keeps g u fits body landed w d n =
        Post-handle
          (settle_payload services (payload_text g u) (leb max_attempts (attempt + 1)) landed)
          (create-Keeps services.json body_at services.store laws (payload_text g u) body
            (payload_text-IsNoMarker services.json body_at g u) w d)
          (λ etag v l. returned (l, ((λ e. absurd (n e)), fits)))
          λ e v h.
            Post-weaken (settle_payload-Keeps (payload_text g u) landed e v h.0.dense n h.1)
              (λ o u x. (Later-trans services.json body_at h.0 x.0, (x.1, fits)))
              λ e' u x. (Later-trans services.json body_at h.0 x.0, x.1)

    pub publish_resolved-Keeps :
        (work : Bytes) (generation : ℕ) (new_uuid : Uuid) (policy : TransportPolicy) (w : W)
        → IsDense services.json body_at w
        → Post
            (λ o w'.
              Later services.json body_at w w'
              × (HasTime attempt max_attempts o × (generation ≤ max_generation)))
            (Fallen services.json body_at w)
            (publish_resolved services work generation new_uuid attempt max_attempts policy w)
    unfolding publish_resolved
    publish_resolved-Keeps work generation new_uuid policy w d =
        elim (Result-cases (format_payload_key generation new_uuid)) [
          | inr (e, bad) ↦ rw bad (
              raised (
                Later-refl services.json body_at d,
                λ same. format_payload_key-fails generation new_uuid (rw same at bad),
              ))
          | inl (key, good) ↦
              let (fits, is) = format_payload_key-eq-ok generation new_uuid key good in
              rw (good, is)
                (bind-KeepsWith services.json body_at {P = λ r _. r.1 ≢ not_landed}
                  {R = λ o _. HasTime attempt max_attempts o × (generation ≤ max_generation)} w
                  (prepare services policy work) _ (prepare-Keeps policy work w d)
                  λ r v l n. put-Keeps generation new_uuid fits r.0 r.1 v l.dense n)
        ]
