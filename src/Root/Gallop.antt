-- ===== src/Root/Gallop.antt =====
-- The exponential bracket and the binary search end at the frontier of the dense markers.
use ducklake_serverless.Base.{
  ℕ, zero, suc, ◌+◌, ◌-◌, ◌*◌, ◌/◌, ◌≤◌, ◌<◌, ◌≡◌, ◌≢◌, refl, ◌⊎◌, inl, inr, Text, Bytes, Option,
  arith, ltb, leb, Bool-cases, ◌==◌, if◌then◌else◌, ==_iff,
}
use ducklake_serverless.Errors.{
  Error, external_service, object_not_found, lake_not_initialized, pure, Post, returned, raised,
  Post-bind, Post-absent_or, Post-weaken,
}
use ducklake_serverless.Models.Keys.{max_generation}
use ducklake_serverless.Models.RootDoc.{RootDoc, JsonBytes}
use ducklake_serverless.Store.{ObjectStore}
use ducklake_serverless.Store.Markers.{Present, Committed, Later, KeepsMarkers}
use ducklake_serverless.Root.{read_marker, bracket, binary_search, frontier, gallop_discover}
use ducklake_serverless.Root.Reading.{
  Later-trans, Later-refl, Present-Later, Committed-Later, Committed-own, Committed-Present,
  absent_above, ReadEnds, read_marker-Post,
}

module _ {W : Type 0} (json : JsonBytes) (body_at : W → Text → Option Bytes) (Fails : Type 0) where
  -- The error of a call that could not reach the store.
  abbrev pub Unreachable : W → Error → W → Type 0
  Unreachable w e w' = Later json body_at w w' × ((e ≡ external_service) × Fails)

  -- `lo` is present and `hi` lies above all that were present at the start.
  abbrev Bracketed : W → ℕ × ℕ → W → Type 0
  Bracketed start (lo, hi) w =
      Later json body_at start w
      × Present json body_at w lo
      × (lo < hi)
      × (hi ≤ max_generation + 1)
      × ((h : ℕ) → Present json body_at start h → h < hi)

  -- The generation is present, and nothing above it was at the start.
  abbrev pub IsFrontier : W → ℕ → W → Type 0
  IsFrontier start g w =
      Later json body_at start w
      × Present json body_at w g
      × ((h : ℕ) → Present json body_at start h → h ≤ g)

  pub other_error :
      {start w w' : W} {g : ℕ} (e : Error)
      → Later json body_at start w
      → e ≢ object_not_found
      → ReadEnds json body_at Fails w g e w'
      → Unreachable start e w'
  other_error e l n (l', inl (same, _)) = absurd (n same)
  other_error e l n (l', inr h) = (Later-trans json body_at l l', h)

  pub missing_marker :
      {w w' : W} {g : ℕ}
      → ReadEnds json body_at Fails w g object_not_found w'
      → ¬ Present json body_at w' g
  missing_marker (l', inl (_, a)) = a
  missing_marker (l', inr (same, _)) = absurd (cc same)

  pub Later-read :
      {start w w' : W} {g : ℕ}
      → Later json body_at start w
      → ReadEnds json body_at Fails w g object_not_found w'
      → Later json body_at start w'
  Later-read l h = Later-trans json body_at l h.0

  stop_at :
      {start : W} (lo step : ℕ) (w w' : W)
      → Present json body_at w lo
      → Later json body_at start w
      → lo + step ≤ max_generation
      → 0 < step
      → ReadEnds json body_at Fails w (lo + step) object_not_found w'
      → Bracketed start (lo, lo + step) w'
  stop_at lo step w w' p l fits s h = (
    Later-read l h,
    Present-Later json body_at lo h.0 p,
    omega arith,
    omega arith,
    λ g q. absent_above json body_at (lo + step) g (Later-read l h) (missing_marker h) q,
  )

  below_middle :
      {start w' : W} {mid : ℕ}
      → Later json body_at start w'
      → ¬ Present json body_at w' mid
      → (h : ℕ) → Present json body_at start h
      → h ≤ mid - 1
  below_middle {mid = mid} l a h q = omega (arith, absent_above json body_at mid h l a q)

  module _ (store : ObjectStore W) (laws : KeepsMarkers json body_at store Fails) (start : W) where
    bracket-Post :
        (n lo step : ℕ) (w : W)
        → max_generation < lo + n
        → 0 < step
        → Later json body_at start w
        → Present json body_at w lo
        → Post (Bracketed start) (Unreachable start) (bracket store json n lo step w)
    unfolding bracket
    bracket-Post zero lo step w f s l p = absurd (omega (arith, p.0))
    bracket-Post (suc n) lo step w f s l p = elim (Bool-cases (ltb max_generation (lo + step))) [
      | inl past ↦
          rw past (returned (l, p, omega (arith, p.0), omega arith, λ h q. omega (arith, q.0)))
      | inr within ↦ rw within (
          Post-absent_or _ _
            (read_marker-Post json body_at store laws (lo + step) w (ground arith) l.dense)
            (λ doc w' h.
              bracket-Post n (lo + step) (step * 2) w' (omega arith) (omega arith)
                (Later-trans json body_at l h.0) (Committed-Present json body_at h.1))
            (λ w' h. returned (stop_at lo step w w' p l (ground arith) s h))
            λ e w' n h. other_error e l n h)
    ]

    binary_search-Post :
        (n left right last : ℕ) (w : W)
        → right + 1 < left + n
        → left ≡ last + 1
        → last ≤ right
        → right ≤ max_generation
        → Later json body_at start w
        → Present json body_at w last
        → ((h : ℕ) → Present json body_at start h → h ≤ right)
        → Post (IsFrontier start) (Unreachable start) (binary_search store json n left right last w)
    unfolding binary_search
    binary_search-Post zero left right last w f e o m l p up = absurd (omega arith)
    binary_search-Post (suc n) left right last w f e o m l p up =
        elim (Bool-cases (leb left right)) [
          | inl inside ↦ rw inside (
              Post-absent_or _ _
                (read_marker-Post json body_at store laws ((left + right) / 2) w (ground arith)
                  l.dense)
                (λ doc w' h.
                  binary_search-Post n ((left + right) / 2 + 1) right ((left + right) / 2) w'
                    (ground arith) refl (ground arith) m (Later-trans json body_at l h.0)
                    (Committed-Present json body_at h.1) up)
                (λ w' h.
                  binary_search-Post n left ((left + right) / 2 - 1) last w' (ground arith) e
                    (ground arith) (ground arith) (Later-read l h)
                    (Present-Later json body_at last h.0 p)
                    (below_middle (Later-read l h) (missing_marker h)))
                λ e w' n h. other_error e l n h)
          | inr outside ↦ rw outside (returned (l, p, λ h q. ground (arith, up h q)))
        ]

    -- The two loops together find the last marker, unless the store cannot be reached.
    frontier-Post :
        (w : W)
        → Later json body_at start w
        → Present json body_at w 0
        → Post (IsFrontier start) (Unreachable start) (frontier store json w)
    unfolding frontier
    frontier-Post w l p =
        Post-bind (bracket-Post (max_generation + 1) 0 1 w (omega arith) (omega arith) l p)
          (λ (lo, hi) w' h.
            binary_search-Post (hi - lo) (lo + 1) (hi - 1) lo w' (omega (arith, h.2)) refl
              (omega (arith, h.2)) (omega (arith, h.2, h.3)) h.0 h.1
              (λ g q. omega (arith, h.4 g q)))
          λ e w' h. h

  module _ (store : ObjectStore W) (laws : KeepsMarkers json body_at store Fails) (start : W) where
    -- How the discovery fails: without a first marker, or without the store.
    abbrev pub DiscoveryFails : Error → W → Type 0
    DiscoveryFails e w =
        ((e ≡ lake_not_initialized) × (¬ Present json body_at start 0)) ⊎ Unreachable start e w

    -- `doc` is committed, and no marker above it was there at the start.
    abbrev pub IsHead : RootDoc → W → Type 0
    IsHead doc w =
        Later json body_at start w
        × Committed json body_at w doc.generation doc
        × ((h : ℕ) → Present json body_at start h → h ≤ doc.generation)

    frontier-IsHead :
        (last : ℕ) (doc : RootDoc) (v u w : W)
        → Later json body_at start v
        → IsFrontier v last u
        → Later json body_at u w
        → Committed json body_at w last doc
        → IsHead doc w
    frontier-IsHead last doc v u w l f l' c = (
      Later-trans json body_at l (Later-trans json body_at f.0 l'),
      Committed-own json body_at c,
      λ h q. omega (arith, f.2 h (Present-Later json body_at h l q), c.generation),
    )

    reread :
        (low_doc : RootDoc) (v : W) (last : ℕ) (u : W)
        → Later json body_at start v
        → Committed json body_at v 0 low_doc
        → IsFrontier v last u
        → Post IsHead DiscoveryFails
            ((if last == 0 then pure low_doc else read_marker store json last) u)
    reread low_doc v last u l c f = elim (Bool-cases (last == 0)) [
      | inl first ↦ rw first (
          returned (
            frontier-IsHead last low_doc v u u l f (Later-refl json body_at f.0.dense)
              (rw ((==_iff last 0).0 first) (Committed-Later json body_at f.0 c))))
      | inr further ↦ rw further (
          Post-weaken (read_marker-Post json body_at store laws last u f.1.0 f.0.dense)
            (λ doc w h. frontier-IsHead last doc v u w l f h.0 h.1)
            λ e w h. inr (found_again e l f h))
    ]
      where
        found_again :
            {w : W} (e : Error)
            → Later json body_at start v
            → IsFrontier v last u
            → ReadEnds json body_at Fails u last e w
            → Unreachable start e w
        found_again e l f (l', inl (same, gone)) =
            absurd (gone (Present-Later json body_at last l' f.1))
        found_again e l f (l', inr h) =
            (Later-trans json body_at l (Later-trans json body_at f.0 l'), h)

    pub gallop_discover-Post :
        (w : W)
        → Later json body_at start w
        → Post IsHead DiscoveryFails (gallop_discover store json w)
    unfolding gallop_discover
    gallop_discover-Post w l =
        Post-absent_or _ _ (read_marker-Post json body_at store laws 0 w (omega arith) l.dense)
          (λ doc v h.
            let l' = Later-trans json body_at l h.0 in
            Post-bind
              (frontier-Post store laws v v (Later-refl json body_at h.0.dense)
                (Committed-Present json body_at h.1))
              (λ last u f. reread doc v last u l' h.1 f)
              λ e u f. inr (Later-trans json body_at l' f.0, f.1))
          (λ v h.
            raised
              (inl (refl, λ p. missing_marker h (Present-Later json body_at 0 (Later-read l h) p))))
          λ e v n h. inr (other_error e l n h)
