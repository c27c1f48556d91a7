-- ===== src/Store/Keeps.antt =====
-- Calls that keep every marker and the density of the markers, and how they compose.
use ducklake_serverless.Base.{
  ℕ, arith, Bool-cases, ◌≢◌, inl, inr, ap, Text, Bytes, Option, text_eq, text_eq_iff,
}
use ducklake_serverless.Errors.{
  Error, Result, ok, err, out_of_fuel, Exec, pure, raise, lift, handle, absent_or,
  is_object_not_found, ◌>>=◌, Post, returned, raised, Post-bind, Post-handle, Post-weaken,
}
use ducklake_serverless.Models.Keys.{Uuid, payload_text, marker_text}
use ducklake_serverless.Models.RootDoc.{JsonBytes}
use ducklake_serverless.Store.{ObjectStore}
use ducklake_serverless.Store.Markers.{IsDense, Later, IsNoMarker, KeepsMarkers}
use ducklake_serverless.Root.Reading.{Later-trans, Later-refl}

module _ {W : Type 0} (json : JsonBytes) (body_at : W → Text → Option Bytes) where
  -- An error of the program, reached in a later world.
  abbrev pub Fallen : W → Error → W → Type 0
  Fallen w e w' = Later json body_at w w' × (e ≢ out_of_fuel)

  -- The call ends in a later world, and not for want of fuel.
  abbrev pub Keeps : {A : Type 0} → Exec W A → Type 0
  Keeps m =
      (w : W) → IsDense json body_at w → Post (λ _ w'. Later json body_at w w') (Fallen w) (m w)

  pub pure-Keeps : {A : Type 0} (a : A) → Keeps (pure a)
  pure-Keeps a w d = returned (Later-refl json body_at d)

  pub raise-Keeps : {A : Type 0} (e : Error) → e ≢ out_of_fuel → Keeps {A = A} (raise e)
  raise-Keeps e n w d = raised (Later-refl json body_at d, n)

  pub bind-Keeps :
      {A B : Type 0} (m : Exec W A) (f : A → Exec W B)
      → Keeps m
      → ((a : A) → Keeps (f a))
      → Keeps (m >>= f)
  bind-Keeps m f k g w d =
      Post-bind (k w d)
        (λ a v l.
          Post-weaken (g a v l.dense) (λ b u l'. Later-trans json body_at l l')
            λ e u h. (Later-trans json body_at l h.0, h.1))
        λ e v h. h

  pub handle-Keeps :
      {A B : Type 0} (m : Exec W A) (f : Result A → Exec W B)
      → Keeps m
      → ((a : A) → Keeps (f (ok a)))
      → ((e : Error) → e ≢ out_of_fuel → Keeps (f (err e)))
      → Keeps (handle m f)
  handle-Keeps m f k g h w d =
      Post-handle f (k w d)
        (λ a v l.
          Post-weaken (g a v l.dense) (λ b u l'. Later-trans json body_at l l')
            λ e u x. (Later-trans json body_at l x.0, x.1))
        λ e v l.
          Post-weaken (h e l.1 v l.0.dense) (λ b u l'. Later-trans json body_at l.0 l')
            λ e' u x. (Later-trans json body_at l.0 x.0, x.1)

  -- The call keeps the markers, and what it returns satisfies `Q` where it ends.
  abbrev pub KeepsWith : {A : Type 0} → (A → W → Type 0) → Exec W A → Type 0
  KeepsWith Q m =
      (w : W)
      → IsDense json body_at w
      → Post (λ a w'. Later json body_at w w' × Q a w') (Fallen w) (m w)

  pub bind-KeepsWith :
      {A B : Type 0} {P : A → W → Type 0} {R : B → W → Type 0} (w : W) (m : Exec W A)
      (f : A → Exec W B)
      → Post (λ a w'. Later json body_at w w' × P a w') (Fallen w) (m w)
      → ((a : A) (v : W)
          → Later json body_at w v
          → P a v
          → Post (λ b w'. Later json body_at v w' × R b w') (Fallen v) (f a v))
      → Post (λ b w'. Later json body_at w w' × R b w') (Fallen w) ((m >>= f) w)
  bind-KeepsWith w m f k g =
      Post-bind k
        (λ a v h.
          Post-weaken (g a v h.0 h.1) (λ b u l'. (Later-trans json body_at h.0 l'.0, l'.1))
            λ e u x. (Later-trans json body_at h.0 x.0, x.1))
        λ e v h. h

  pub after-KeepsWith :
      {A B : Type 0} {R : B → W → Type 0} (w : W) (m : Exec W A) (f : A → Exec W B)
      → IsDense json body_at w
      → Keeps m
      → ((a : A) (v : W)
          → Later json body_at w v
          → Post (λ b w'. Later json body_at v w' × R b w') (Fallen v) (f a v))
      → Post (λ b w'. Later json body_at w w' × R b w') (Fallen w) ((m >>= f) w)
  after-KeepsWith {R = R} w m f d k g =
      bind-KeepsWith {P = λ _ _. Unit {0}} {R = R} w m f
        (Post-weaken (k w d) (λ a v l. (l, tt)) λ e v h. h) λ a v l t. g a v l

  pub absent_or-Keeps :
      {A B : Type 0} (missing : Exec W B) (found : A → Exec W B) (e : Error)
      → e ≢ out_of_fuel
      → Keeps missing
      → Keeps (absent_or missing found (err e))
  absent_or-Keeps missing found e n k = elim (Bool-cases (is_object_not_found e)) [
    | inl it ↦ rw it k
    | inr other ↦ rw other (raise-Keeps e n)
  ]

  pub lift-Keeps : {A : Type 0} (r : Result A) → r ≢ err out_of_fuel → Keeps (lift r)
  lift-Keeps (ok a) n = pure-Keeps a
  lift-Keeps (err e) n = raise-Keeps e λ same. n (ap err same)

  module _ {Fails : Type 0} (store : ObjectStore W)
      (laws : KeepsMarkers json body_at store Fails) where
    pub get-Keeps : (k : Text) → Keeps (store.get k)
    get-Keeps k w d =
        Post-weaken (laws.get_law k w d) (λ r v h. h.0) λ e v h. (h.0, (λ same. ground arith))

    pub head-Keeps : (k : Text) → Keeps (store.head_meta k)
    head-Keeps k w d =
        Post-weaken (laws.head_law k w d) (λ r v h. h) λ e v h. (h.0, λ same. ground arith)

    pub put-Keeps : (k : Text) (b : Bytes) → IsNoMarker json body_at k → Keeps (store.put k b)
    put-Keeps k b n w d =
        Post-weaken (laws.put_law k b w n d) (λ r v h. h)
          λ e v h. (h.0, λ same. absurd (cc (same, h.1.0)))

    pub create-Keeps :
        (k : Text) (b : Bytes) → IsNoMarker json body_at k → Keeps (store.put_if_absent k b)
    create-Keeps k b n w d =
        Post-weaken (laws.create_law k b w n d) (λ r v h. h) λ e v h. (h.0, λ same. ground arith)

  -- Payloads do not stand among the markers.
  pub payload_text-IsNoMarker : (g : ℕ) (u : Uuid) → IsNoMarker json body_at (payload_text g u)
  unfolding text_eq
  payload_text-IsNoMarker g u h e =
      absurd (cc ((text_eq_iff (payload_text g u) (marker_text h)).1 e))
