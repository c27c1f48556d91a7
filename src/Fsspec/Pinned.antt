-- ===== src/Fsspec/Pinned.antt =====
-- A pinned path keeps naming the document that it was pinned to.
use ducklake_serverless.Base.{
  ℕ, ◌≤◌, ◌≡◌, inl, inr, refl, ap, sym, ◌∙◌, Text, Bytes, text, text_eq, Option, some, [], length,
  ltb, false, arith,
}
use mathlib.Core.List.{append-nil}
use ducklake_serverless.Errors.{
  Error, err, handle, is_not_found, external_service, Post, returned, raised, Post-bind,
  Post-handle,
}
use ducklake_serverless.Models.Keys.{max_generation}
use ducklake_serverless.Models.RootDoc.{RootDoc}
use ducklake_serverless.Store.Markers.{Committed, IsDense, Later, KeepsMarkers}
use ducklake_serverless.Root.{read_marker}
use ducklake_serverless.Root.Reading.{
  ReadEnds, read_marker-Post, Committed-Later, Committed-Present, Present-Later,
}
use ducklake_serverless.Commit.Services.{Services}
use ducklake_serverless.Fsspec.{or_missing, resolve_name, resolve, pin, strip_protocol}
use ducklake_serverless.Fsspec.Paths.{
  lstrip_slash, gen_re, int_of, max_str_digits, digits_of, gen_path,
}
use ducklake_serverless.Fsspec.Paths.RoundTrip.{gen_re-gen_path}
use ducklake_serverless.Fsspec.Paths.Digits.{of_digits-digits_of, length-digits_of}
use ducklake_serverless.Fsspec.Resolve.{resolve_absent, Resolved, Unresolved}

-- fsspec leaves a name without a protocol and without a slash at its end as it is.
abbrev pub KeepsNames : (Text → Text) → Type 0
KeepsNames base_strip = (n : ℕ) → base_strip (gen_path n) ≡ gen_path n

not_too_long : (n : ℕ) → n ≤ max_generation → ltb max_str_digits (length (digits_of n n)) ≡ false
not_too_long n h = let short = length-digits_of n n 7 (omega (arith, h)) in ground (arith, short)

lstrip_slash-gen_path : (g : ℕ) → lstrip_slash (gen_path g) ≡ gen_path g
unfolding lstrip_slash gen_path
lstrip_slash-gen_path g = refl

no_head : (g : ℕ) → text_eq (gen_path g) (text "head") ≡ false
unfolding gen_path text_eq
no_head g = refl

module _ {W : Type 0} (services : Services W) (base_strip : Text → Text)
    (body_at : W → Text → Option Bytes) {Fails : Type 0}
    (laws : KeepsMarkers services.json body_at services.store Fails)
    (keeps : KeepsNames base_strip) where
  -- A committed marker is one document, for good.
  same_doc :
      (g : ℕ) (doc doc' : RootDoc) (u v : W)
      → Committed services.json body_at u g doc
      → Later services.json body_at u v
      → Committed services.json body_at v g doc'
      → doc' ≡ doc
  same_doc g doc doc' u v c l c' = cc (c'.stored, c'.parsed, l.stay g c.body c.stored, c.parsed)

  resolve-gen_path :
      (g : ℕ) (w : W)
      → g ≤ max_generation
      → resolve services base_strip (gen_path g) w
        ≡ handle (read_marker services.store services.json g) (or_missing services base_strip) w
  unfolding resolve resolve_name int_of
  resolve-gen_path g w h =
      rw (keeps g, lstrip_slash-gen_path g, no_head g)
        (rw taken (rw (not_too_long g h, of_digits-digits_of g g (omega arith)) refl))
    where
      taken : gen_re (gen_path g) ≡ some (digits_of g g)
      taken = ap gen_re (sym (append-nil (gen_path g))) ∙ gen_re-gen_path g [] (inl refl)

  reads_same :
      (g : ℕ) (doc : RootDoc) (w u : W) (e : Error)
      → Committed services.json body_at w g doc
      → ReadEnds services.json body_at Fails w g e u
      → Post
          (λ r v. Later services.json body_at w v × (r ≡ doc))
          (λ e v. (e ≡ external_service) × Fails)
          (or_missing services base_strip (err e) u)
  unfolding is_not_found
  reads_same g doc w u e c (l, inl (_, gone)) =
      absurd
        (gone (Present-Later services.json body_at g l (Committed-Present services.json body_at c)))
  reads_same g doc w u e c (l, inr (same, fails)) = rw same (raised (refl, fails))

  gen_path-Post :
      (g : ℕ) (doc : RootDoc) (w : W)
      → IsDense services.json body_at w
      → Committed services.json body_at w g doc
      → Post
          (λ r v. Later services.json body_at w v × (r ≡ doc))
          (λ e v. (e ≡ external_service) × Fails)
          (resolve services base_strip (gen_path g) w)
  gen_path-Post g doc w d c = rw (resolve-gen_path g w c.in_range) (
      Post-handle (or_missing services base_strip)
        (read_marker-Post services.json body_at services.store laws g w c.in_range d)
        (λ r v h. returned (h.0, same_doc g doc r w v c h.0 h.1))
        λ e v h. reads_same g doc w v e c h)

  -- If the store keeps the laws of `KeepsMarkers`, the lake is dense and fsspec leaves paths of
  -- generations as they are, then a path that `pin` returns is the path of the generation of a
  -- committed document. The path that was pinned stands for that generation: it has its number, or
  -- it is `head`, and the generation is not below any marker that was there when the call began and
  -- that no readable hint lags more than 2047 generations behind. `_resolve` returns this very
  -- document for the pinned path in every later world, whatever was committed meanwhile; it raises nothing but ExternalServiceError, and that only where the transport may
  -- fail. What `pin` raises is what `_resolve` raises.
  pub pin-resolve :
      (path : Text) (w : W)
      → IsDense services.json body_at w
      → Post
          (λ pinned u.
            (doc : RootDoc) × (pinned ≡ gen_path doc.generation)
            × Resolved services base_strip body_at laws
                (strip_protocol services base_strip path)
                w
                doc
                u
            × ((v : W)
                → Later services.json body_at u v
                → Post
                    (λ r z. Later services.json body_at v z × (r ≡ doc))
                    (λ e z. (e ≡ external_service) × Fails)
                    (resolve services base_strip pinned v)))
          (Unresolved services base_strip body_at laws (strip_protocol services base_strip path) w)
          (pin services base_strip path w)
  unfolding pin
  pin-resolve path w d =
      Post-bind (resolve_absent services base_strip body_at laws path w d)
        (λ doc u h. returned (
          doc,
          refl,
          h,
          λ v l.
              gen_path-Post doc.generation doc v l.dense
                (Committed-Later services.json body_at l h.1),
        ))
        λ e u h. h
