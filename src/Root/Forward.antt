-- ===== src/Root/Forward.antt =====
-- The forward probe from a committed generation: it ends at a committed one, and within the cap on
-- probes it passes every generation that was there at the start.
use ducklake_serverless.Base.{
  ℕ, zero, suc, ◌+◌, ◌*◌, ◌≤◌, ◌<◌, ◌≡◌, ◌⊎◌, inl, inr, min, Text, Bytes, Option, arith, ltb,
  Bool-cases, true, false, ◌==◌, if◌then◌else◌, ==_iff,
}
use ducklake_serverless.Errors.{ok, Post, returned, Post-absent_or}
use ducklake_serverless.Models.Keys.{max_generation}
use ducklake_serverless.Models.RootDoc.{RootDoc, JsonBytes}
use ducklake_serverless.Store.{ObjectStore}
use ducklake_serverless.Store.Markers.{Present, Committed, Later, KeepsMarkers}
use ducklake_serverless.Root.{forward, gallop_cap}
use ducklake_serverless.Root.Reading.{Later-trans, Committed-Later, absent_above, read_marker-Post}
use ducklake_serverless.Root.Gallop.{Unreachable, other_error, missing_marker, Later-read}

-- The probes that a round at this step may waste.
abbrev cost : ℕ → ℕ
cost step = if step == 1 then 1 else 2

-- `h` is passed already, or the probes left are enough to pass it: of two probes one moves on.
abbrev Reachable : ℕ → ℕ → ℕ → ℕ → Type 0
Reachable n generation step h = (h ≤ generation) ⊎ (2 * h + cost step ≤ 2 * generation + n)

reach_found :
    (n g step h : ℕ)
    → 0 < step
    → Reachable (suc n) g step h
    → Reachable n (g + step) (min (step * 2) gallop_cap) h
reach_found n g step h s r = ground arith

reach_refined :
    (n g step h : ℕ) → (step == 1) ≡ false → Reachable (suc n) g step h → Reachable n g 1 h
reach_refined n g step h s r = ground arith

reach_end : (g step h : ℕ) → Reachable 0 g step h → h ≤ g
reach_end g step h r = ground arith

module _ {W : Type 0} (json : JsonBytes) (body_at : W → Text → Option Bytes) (Fails : Type 0)
    (store : ObjectStore W) (laws : KeepsMarkers json body_at store Fails) (start : W)
    (Near : ℕ → Type 0) where
  -- `doc` is committed, and no near marker above it was there at the start.
  abbrev pub IsRecent : RootDoc × ℕ → W → Type 0
  IsRecent (doc, generation) w =
      Later json body_at start w
      × Committed json body_at w generation doc
      × ((h : ℕ) → Present json body_at start h → Near h → h ≤ generation)

  module _ (n : ℕ) where
    abbrev pub Reaches : ℕ → ℕ → Type 0
    Reaches generation step =
        (h : ℕ) → Present json body_at start h → Near h → Reachable n generation step h

  -- A gap: the end of the markers after a single step, a reason to go on by one after a longer.
  refine-Post :
      (n : ℕ) (doc : RootDoc) (g step : ℕ) (w : W)
      → Later json body_at start w
      → Committed json body_at w g doc
      → ((h : ℕ) → Present json body_at start h → h < g + step)
      → ((step == 1) ≡ false
          → Post IsRecent (Unreachable json body_at Fails start) (forward store json n doc g 1 w))
      → Post IsRecent
          (Unreachable json body_at Fails start)
          (if step == 1 then (ok (doc, g), w) else forward store json n doc g 1 w)
  refine-Post n doc g step w l c above again = elim (Bool-cases (step == 1)) [
    | inl single ↦
        rw single (returned (l, c, λ h q near. omega (arith, above h q, (==_iff step 1).0 single)))
    | inr several ↦ rw several (again several)
  ]

  beyond :
      (g step : ℕ)
      → ltb max_generation (g + step) ≡ true
      → (h : ℕ) → Present json body_at start h
      → h < g + step
  beyond g step past h q = ground (arith, q.0)

  pub forward-Post :
      (n : ℕ) (doc : RootDoc) (generation step : ℕ) (w : W)
      → 0 < step
      → Later json body_at start w
      → Committed json body_at w generation doc
      → Reaches n generation step
      → Post IsRecent
          (Unreachable json body_at Fails start)
          (forward store json n doc generation step w)
  unfolding forward
  forward-Post zero doc g step w s l c r =
      returned (l, c, λ h q near. reach_end g step h (r h q near))
  forward-Post (suc n) doc g step w s l c r = elim (Bool-cases (ltb max_generation (g + step))) [
    | inl past ↦ rw past (
        refine-Post n doc g step w l c (beyond g step past) λ several.
          forward-Post n doc g 1 w (omega arith) l c
            λ h q near. reach_refined n g step h several (r h q near))
    | inr within ↦ rw within (
        Post-absent_or _ _
          (read_marker-Post json body_at store laws (g + step) w (ground arith) l.dense)
          (λ nxt w' h.
            forward-Post n nxt (g + step) (min (step * 2) gallop_cap) w' (ground arith)
              (Later-trans json body_at l h.0) h.1
              λ k q near. reach_found n g step k s (r k q near))
          (λ w' a.
            let l' = Later-read json body_at Fails l a in
            let c' = Committed-Later json body_at a.0 c in
            refine-Post n doc g step w' l' c'
              (λ h q.
                absent_above json body_at (g + step) h l' (missing_marker json body_at Fails a) q)
              λ several.
                forward-Post n doc g 1 w' (omega arith) l' c'
                  λ h q near. reach_refined n g step h several (r h q near))
          λ e w' k a. other_error json body_at Fails e l k a)
  ]
