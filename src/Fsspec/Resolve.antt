-- ===== src/Fsspec/Resolve.antt =====
-- What `_resolve` ends in: which paths name a generation, and that an outage is never taken for
-- absence.
use ducklake_serverless.Base.{
  ℕ, ◌≤◌, ◌<◌, ◌≡◌, ◌≢◌, ◌⊎◌, inl, inr, refl, sym, Text, Bytes, text, text_eq, text_eq_iff,
  text_eq_refl, Option, none, some, Option-cases, List, length, ltb, ltb→lt, Bool-cases, arith,
}
use ducklake_serverless.Errors.{
  Error, err, external_service, input_validation, object_not_found, lake_not_initialized,
  file_not_found, value_error, is_not_found, Post, returned, raised, Post-bind, Post-handle,
}
use ducklake_serverless.Models.Keys.{max_generation, format_marker_key}
use ducklake_serverless.Models.Digits.{of_digits}
use ducklake_serverless.Models.RootDoc.{RootDoc}
use ducklake_serverless.Store.Markers.{Present, Committed, IsDense, Later, KeepsMarkers}
use ducklake_serverless.Root.{read_marker}
use ducklake_serverless.Root.Reading.{read_marker-Post, Committed-own}
use ducklake_serverless.Root.Head.{resolve_head-Post, HintNear}
use ducklake_serverless.Commit.Services.{Services}
use ducklake_serverless.Fsspec.{strip_protocol, or_missing, resolve_number, resolve_name, resolve}
use ducklake_serverless.Fsspec.Paths.{gen_re, int_of, max_str_digits}

module _ {W : Type 0} (services : Services W) (base_strip : Text → Text)
    (body_at : W → Text → Option Bytes) {Fails : Type 0}
    (laws : KeepsMarkers services.json body_at services.store Fails) where
  abbrev pub HasMarker : W → ℕ → Type 0
  HasMarker = Present services.json body_at

  abbrev pub number_of : List ℕ → ℕ
  number_of ds = of_digits 10 0 ds

  -- In a call that starts in `w` a name stands for the generation `g`: the one with its number, or,
  -- for `head`, one that no marker of `w` is above, if no hint that can still be read lags far
  -- behind that marker.
  abbrev pub Names : Text → W → ℕ → Type 0
  Names name w g =
      ((name ≡ text "head")
        × ((h : ℕ)
            → HasMarker w h
            → HintNear services.json body_at services.store laws w h
            → h ≤ g))
      ⊎ ((name ≢ text "head") × (ds : List ℕ) × (gen_re name ≡ some ds) × (number_of ds ≡ g))

  -- A name stands for nothing: `head` only without a first marker where the call started, any other
  -- name if it is no path of a generation, or if that generation has no marker where the call ended.
  abbrev pub NamesNothing : Text → W → W → Type 0
  NamesNothing name w w' =
      ((name ≡ text "head") × (¬ HasMarker w 0))
      ⊎ ((name ≢ text "head")
          × ((gen_re name ≡ none)
              ⊎ ((ds : List ℕ) × (gen_re name ≡ some ds)
                  × (number_of ds ≤ max_generation)
                  × (¬ HasMarker w' (number_of ds)))))

  abbrev pub IsTooLarge : Text → Type 0
  IsTooLarge name = (ds : List ℕ) × (gen_re name ≡ some ds) × (max_generation < number_of ds)

  abbrev pub IsTooLong : Text → Type 0
  IsTooLong name = (ds : List ℕ) × (gen_re name ≡ some ds) × (max_str_digits < length ds)

  abbrev pub Resolved : Text → W → RootDoc → W → Type 0
  Resolved name w doc w' =
      Later services.json body_at w w'
      × Committed services.json body_at w' doc.generation doc
      × Names name w doc.generation

  abbrev pub Unresolved : Text → W → Error → W → Type 0
  Unresolved name w e w' =
      ((e ≡ file_not_found) × NamesNothing name w w')
      ⊎ (((e ≡ external_service) × Fails)
          ⊎ (((e ≡ input_validation) × IsTooLarge name) ⊎ ((e ≡ value_error) × IsTooLong name)))

  module _ (name : Text) (w : W) (d : IsDense services.json body_at w) where
    head-Post :
        name ≡ text "head"
        → Post (Resolved name w) (Unresolved name w) (resolve_name services base_strip name w)
    unfolding resolve_name
    head-Post is =
        rw (is, text_eq_refl (text "head"))
          (Post-handle (or_missing services base_strip)
            (Post-bind {R = Resolved (text "head") w}
              (resolve_head-Post services.json body_at services.store laws w d)
              (λ r u h. returned (
                h.0,
                Committed-own services.json body_at h.1,
                inl (refl, λ k p near. omega (arith, h.2 k p near, h.1.generation)),
              ))
              λ e u h. h)
            (λ doc u h. returned h) (λ e u h. head_fails e u h))
      where
        head_fails :
            (e : Error) (u : W)
            → ((e ≡ lake_not_initialized) × (¬ HasMarker w 0))
              ⊎ (Later services.json body_at w u × ((e ≡ external_service) × Fails))
            → Post
                (Resolved (text "head") w)
                (Unresolved (text "head") w)
                (or_missing services base_strip (err e) u)
        head_fails e u (inl (same, first)) =
            rw same (unfold is_not_found in raised (inl (refl, inl (refl, first))))
        head_fails e u (inr (l, (same, fails))) =
            rw same (unfold is_not_found in raised (inr (inl (refl, fails))))

    number_fails :
        name ≢ text "head"
        → (ds : List ℕ) (e : Error) (u : W) → gen_re name ≡ some ds
        → number_of ds ≤ max_generation
        → ((e ≡ object_not_found) × (¬ HasMarker u (number_of ds)))
          ⊎ ((e ≡ external_service) × Fails)
        → Post (Resolved name w) (Unresolved name w) (or_missing services base_strip (err e) u)
    unfolding is_not_found
    number_fails other ds e u taken within (inl (same, gone)) =
        rw same (raised (inl (refl, inr (other, inr (ds, taken, within, gone)))))
    number_fails other ds e u taken within (inr (same, fails)) =
        rw same (raised (inr (inl (refl, fails))))

    read_number-Post :
        name ≢ text "head"
        → (ds : List ℕ) → gen_re name ≡ some ds
        → Post
            (Resolved name w)
            (Unresolved name w)
            (resolve_number services base_strip (some ds) w)
    unfolding int_of
    read_number-Post other ds taken = elim (Bool-cases (ltb max_str_digits (length ds))) [
      | inl long ↦
          rw long
            (raised (inr (inr (inr (refl, (ds, taken, ltb→lt max_str_digits (length ds) long))))))
      | inr short ↦ rw short (elim (Bool-cases (ltb max_generation (number_of ds))) [
        | inl above ↦
            let refused : read_marker services.store services.json (number_of ds) w
                ≡ (err input_validation, w) =
              unfold read_marker format_marker_key in rw above refl in
            rw refused (
              unfold is_not_found in
              raised
                (inr (inr (inl (refl, (ds, taken, ltb→lt max_generation (number_of ds) above))))))
        | inr fits ↦
            let within : number_of ds ≤ max_generation = ground (arith, fits) in
            Post-handle (or_missing services base_strip)
              (read_marker-Post services.json body_at services.store laws (number_of ds) w within d)
              (λ doc u h. returned (
                h.0,
                Committed-own services.json body_at h.1,
                inr (other, ds, taken, sym h.1.generation),
              ))
              λ e u h. number_fails other ds e u taken within h.1
      ])
    ]

    resolve_name-Post :
        Post (Resolved name w) (Unresolved name w) (resolve_name services base_strip name w)
    unfolding resolve_name
    resolve_name-Post = elim (Bool-cases (text_eq name (text "head"))) [
      | inl is ↦ head-Post ((text_eq_iff name (text "head")).0 is)
      | inr other ↦
          let differs : name ≢ text "head" =
            λ same. absurd (cc (other, (text_eq_iff name (text "head")).1 same)) in
          rw other (elim (Option-cases (gen_re name)) [
            | inl nothing ↦ rw nothing (raised (inl (refl, inr (differs, inl nothing))))
            | inr (ds, taken) ↦ rw taken (read_number-Post differs ds taken)
          ])
    ]

  -- If the store keeps the laws of `KeepsMarkers` and the lake is dense, then `_resolve` ends. It
  -- returns a committed document of the generation that the name has the number of; for `head`, of
  -- one that is not below any marker that was there when the call began and that no hint that can
  -- still be read lags more than 2047 generations behind. FileNotFoundError means absence: for
  -- `head` that the lake had no first marker when the call began, for any other name that it is no
  -- path of a generation, or that its marker is not there when the call ends. An outage stays an
  -- ExternalServiceError; InputValidationError comes of a number above the last generation, and
  -- ValueError of more digits than `int` takes.
  pub resolve_absent :
      (path : Text) (w : W)
      → IsDense services.json body_at w
      → Post
          (Resolved (strip_protocol services base_strip path) w)
          (Unresolved (strip_protocol services base_strip path) w)
          (resolve services base_strip path w)
  unfolding resolve
  resolve_absent path w d = resolve_name-Post (strip_protocol services base_strip path) w d
