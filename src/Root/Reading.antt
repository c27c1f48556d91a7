-- ===== src/Root/Reading.antt =====
-- What a read of a marker says about the worlds before and after it.
use native.Mathlib.Nat.{zero-add, suc-add}
use mathlib.Core.Path.{subst}
use native.Mathlib.Decide.{dec_lt}
use ducklake_serverless.Base.{
  ℕ, zero, suc, ◌+◌, ◌≤◌, ◌<◌, ◌≡◌, sym, ◌⊎◌, inl, inr, Text, Bytes, Option, none, some, arith,
  ==_iff, ◌-◌,
}
use ducklake_serverless.Errors.{
  Error, ok, external_service, object_not_found, Post, returned, Post-bind,
}
use ducklake_serverless.Models.Keys.{format_marker_key, marker_text, max_generation}
use ducklake_serverless.Models.RootDoc.{RootDoc, JsonBytes, from_json_bytes}
use ducklake_serverless.Store.{ObjectStore}
use ducklake_serverless.Store.Markers.{Present, Committed, IsDense, Later, KeepsMarkers}
use ducklake_serverless.Root.{read_marker, checked_doc}

pub format_marker_key-in_range :
    (g : ℕ) → g ≤ max_generation → format_marker_key g ≡ ok (marker_text g)
unfolding format_marker_key
format_marker_key-in_range g h = ground arith

module _ {W : Type 0} (json : JsonBytes) (body_at : W → Text → Option Bytes) where
  pub Later-trans :
      {u v w : W} → Later json body_at u v → Later json body_at v w → Later json body_at u w
  Later-trans a b = record { stay = λ g body h. b.stay g body (a.stay g body h); dense = b.dense }

  pub Later-refl : {w : W} → IsDense json body_at w → Later json body_at w w
  Later-refl d = record { stay = λ g body h. h; dense = d }

  pub Present-Later :
      {w w' : W} (g : ℕ)
      → Later json body_at w w'
      → Present json body_at w g
      → Present json body_at w' g
  Present-Later g l p = (p.0, p.1, l.stay g p.1 p.2)

  pub Committed-Later :
      {w w' : W} {g : ℕ} {doc : RootDoc}
      → Later json body_at w w'
      → Committed json body_at w g doc
      → Committed json body_at w' g doc
  Committed-Later {g = g} l c = record {
    in_range = c.in_range;
    body = c.body;
    stored = l.stay g c.body c.stored;
    parsed = c.parsed;
    generation = c.generation;
  }

  pub Committed-own :
      {w : W} {g : ℕ} {doc : RootDoc}
      → Committed json body_at w g doc
      → Committed json body_at w doc.generation doc
  Committed-own {w} {g} {doc} c = subst (λ k. Committed json body_at w k doc) (sym c.generation) c

  pub Committed-Present :
      {w : W} {g : ℕ} {doc : RootDoc} → Committed json body_at w g doc → Present json body_at w g
  Committed-Present c = (c.in_range, c.body, c.stored)

  -- Below a generation that is present every generation is.
  pub Present-below :
      {w : W} (d g : ℕ)
      → IsDense json body_at w
      → Present json body_at w (d + g)
      → Present json body_at w g
  Present-below zero g h p = rw zero-add at p
  Present-below (suc d) g h p = Present-below d g h (h.parent (d + g) (rw suc-add at p))

  rejoin : (g h : ℕ) → ¬ (h < g) → h - g + g ≡ h
  rejoin g h n = omega arith

  -- A generation found absent lies above all that were present before.
  pub absent_above :
      {w w' : W} (g h : ℕ)
      → Later json body_at w w'
      → ¬ Present json body_at w' g
      → Present json body_at w h
      → h < g
  absent_above g h l a p = elim (dec_lt h g) [
    | yes below ↦ below
    | no above ↦
        absurd (a (Present-below (h - g) g l.dense (rw (rejoin g h above) (Present-Later h l p))))
  ]

  -- How a read of a marker may end.
  abbrev pub ReadEnds : Type 0 → W → ℕ → Error → W → Type 0
  ReadEnds Fails w g e w' =
      Later json body_at w w'
      × (((e ≡ object_not_found) × (¬ Present json body_at w' g))
          ⊎ ((e ≡ external_service) × Fails))

  module _ {Fails : Type 0} (store : ObjectStore W)
      (laws : KeepsMarkers json body_at store Fails) where
    read_fails :
        (g : ℕ) (e : Error) (w' : W)
        → (((e ≡ object_not_found) × (body_at w' (marker_text g) ≡ none))
            ⊎ ((e ≡ external_service) × Fails))
        → ((e ≡ object_not_found) × (¬ Present json body_at w' g))
          ⊎ ((e ≡ external_service) × Fails)
    read_fails g e w' (inl (missing, none_there)) = inl (missing, λ p. cc (none_there, p.2))
    read_fails g e w' (inr h) = inr h

    checked_doc-Post :
        (g : ℕ) (w w' : W) (body : Bytes)
        → g ≤ max_generation
        → Later json body_at w w'
        → body_at w' (marker_text g) ≡ some body
        → Post
            (λ doc u. Later json body_at w u × Committed json body_at u g doc)
            (ReadEnds Fails w g)
            (checked_doc store json g (from_json_bytes json body) w')
    checked_doc-Post g w w' body fits l e =
        let (doc, c) = l.dense.well_formed g (fits, body, e) in
        let same : from_json_bytes json body ≡ some doc = cc (e, c.stored, c.parsed) in
        rw (same, (==_iff doc.generation g).1 c.generation) (returned (l, c))

    pub read_marker-Post :
        (g : ℕ) (w : W)
        → g ≤ max_generation
        → IsDense json body_at w
        → Post
            (λ doc w'. Later json body_at w w' × Committed json body_at w' g doc)
            (ReadEnds Fails w g)
            (read_marker store json g w)
    unfolding read_marker
    read_marker-Post g w fits d = rw (format_marker_key-in_range g fits) (
        Post-bind (laws.get_law (marker_text g) w d)
          (λ r w' h. checked_doc-Post g w w' r.body fits h.0 h.1)
          λ e w' h. (h.0, read_fails g e w' h.1))
