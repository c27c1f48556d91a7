-- ===== src/Errors/Outcome.antt =====
-- Postconditions of calls: one predicate for a value and one for an error, with the rules that
-- follow the shape of a program.
use ducklake_serverless.Base.{◌≡◌, ◌≢◌, true, refl, ap, Bool-cases, inl, inr}
use ducklake_serverless.Errors.Defs.{
  Error, Result, ok, err, Exec, continue, absent_or, object_not_found, is_object_not_found,
}

-- What a finished call has reached.
pub data Post {W A : Type 0} (Q : A → W → Type 0) (E : Error → W → Type 0)
    : Result A × W → Type 0 where
  returned : {a : A} {w : W} → Q a w → Post Q E (ok a, w)
  raised : {e : Error} {w : W} → E e w → Post Q E (err e, w)

abbrev Reached : {W A : Type 0} → (A → W → Type 0) → (Error → W → Type 0) → Result A × W → Type 0
Reached Q E (ok a, w) = Q a w
Reached Q E (err e, w) = E e w

module _ {W A : Type 0} {Q : A → W → Type 0} {E : Error → W → Type 0} where
  Post-Reached : {m : Result A × W} → Post Q E m → Reached Q E m
  Post-Reached (returned h) = h
  Post-Reached (raised h) = h

  -- What is known of a call that is seen to have returned.
  pub Post-ok : {m : Result A × W} {a : A} {w : W} → Post Q E m → m ≡ (ok a, w) → Q a w
  Post-ok {m} {a} {w} h e = rw e at (Post-Reached h)

module _ {W A B : Type 0} {Q : A → W → Type 0} {E : Error → W → Type 0} {R : B → W → Type 0}
    {E' : Error → W → Type 0} where
  -- The rest is proved from what the first call reached; an error is passed on as it is.
  pub Post-bind :
      {m : Result A × W} {f : A → Exec W B}
      → Post Q E m
      → ((a : A) (w : W) → Q a w → Post R E' (f a w))
      → ((e : Error) (w : W) → E e w → E' e w)
      → Post R E' (continue f m)
  Post-bind (returned h) k g = k _ _ h
  Post-bind (raised h) k g = raised (g _ _ h)

  -- A handler is proved for the value and for the error.
  pub Post-handle :
      {m : Result A × W} (f : Result A → Exec W B)
      → Post Q E m
      → ((a : A) (w : W) → Q a w → Post R E' (f (ok a) w))
      → ((e : Error) (w : W) → E e w → Post R E' (f (err e) w))
      → Post R E' (f m.0 m.1)
  Post-handle f (returned h) k g = k _ _ h
  Post-handle f (raised h) k g = g _ _ h

is_object_not_found-eq : (e : Error) → is_object_not_found e ≡ true → e ≡ object_not_found
unfolding is_object_not_found
is_object_not_found-eq object_not_found h = refl
is_object_not_found-eq e h = cc h

module _ {W A B : Type 0} {R : B → W → Type 0} {E' : Error → W → Type 0} (missing : Exec W B)
    (found : A → Exec W B) where
  absent_or-raised :
      (e : Error) (w : W)
      → (e ≡ object_not_found → Post R E' (missing w))
      → (e ≢ object_not_found → E' e w)
      → Post R E' (absent_or missing found (err e) w)
  absent_or-raised e w m g = elim (Bool-cases (is_object_not_found e)) [
    | inl it ↦ rw it (m (is_object_not_found-eq e it))
    | inr other ↦ rw other (
        raised (
          g λ same. absurd (unfold is_object_not_found in cc (ap is_object_not_found same, other))))
  ]

module _ {W A B : Type 0} {Q : A → W → Type 0} {E : Error → W → Type 0} {R : B → W → Type 0}
    {E' : Error → W → Type 0} (missing : Exec W B) (found : A → Exec W B) where
  -- `except ObjectNotFoundError`, with the object found where there is no error.
  pub Post-absent_or :
      {m : Result A × W}
      → Post Q E m
      → ((a : A) (w : W) → Q a w → Post R E' (found a w))
      → ((w : W) → E object_not_found w → Post R E' (missing w))
      → ((e : Error) (w : W) → e ≢ object_not_found → E e w → E' e w)
      → Post R E' (absent_or missing found m.0 m.1)
  Post-absent_or (returned h) k m g = k _ _ h
  Post-absent_or (raised {e = e} {w = w} h) k m g =
      absent_or-raised missing found e w (λ same. m w (rw same at h)) (λ other. g e w other h)

module _ {W A : Type 0} where
  -- Two things that are known of one call.
  pub Post-both :
      {Q Q' : A → W → Type 0} {E E' : Error → W → Type 0} {m : Result A × W}
      → Post Q E m
      → Post Q' E' m
      → Post (λ a w. Q a w × Q' a w) (λ e w. E e w × E' e w) m
  Post-both (returned h) k = returned (h, Post-Reached k)
  Post-both (raised h) k = raised (h, Post-Reached k)

  pub Post-weaken :
      {Q Q' : A → W → Type 0} {E E' : Error → W → Type 0} {m : Result A × W}
      → Post Q E m
      → ((a : A) (w : W) → Q a w → Q' a w)
      → ((e : Error) (w : W) → E e w → E' e w)
      → Post Q' E' m
  Post-weaken (returned h) f g = returned (f _ _ h)
  Post-weaken (raised h) f g = raised (g _ _ h)
