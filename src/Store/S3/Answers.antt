-- ===== src/Store/S3/Answers.antt =====
-- How calls of the client end, and what becomes of the answers to a conditional write.
use ducklake_serverless.Base.{
  ℕ, ◌≤◌, ◌≡◌, ◌≢◌, ◌⊎◌, inl, inr, refl, Text, text, text_eq, text_eq_iff, true, false, Bool-cases,
  ◌||◌, Bool, leb, le→leb, ◌==◌, ==_iff, arith,
}
use ducklake_serverless.Errors.{Error, Result, external_service, Post}
use ducklake_serverless.Store.Markers.{IsRefused}
use ducklake_serverless.Store.S3.Client.{
  Outcome, responded, client_error, transport_error, is_no_such_key, is_precondition_failed,
  is_missing, is_conflict, is_outcome_unknown, conditional_error,
}

-- How a call of the client ended: a predicate for a response, for a ClientError and for a
-- BotoCoreError.
pub data Ended {W A : Type 0} (Q : A → W → Type 0) (C : Text → ℕ → W → Type 0) (B : W → Type 0)
    : Outcome A × W → Type 0 where
  has_responded : {a : A} {w : W} → Q a w → Ended Q C B (responded a, w)
  has_client_error :
      {code : Text} {status : ℕ} {w : W}
      → C code status w
      → Ended Q C B (client_error code status, w)
  has_transport_error : {w : W} → B w → Ended Q C B (transport_error, w)

module _ {W A D : Type 0} {Q : A → W → Type 0} {C : Text → ℕ → W → Type 0} {B : W → Type 0}
    {R : D → W → Type 0} {E : Error → W → Type 0} where
  -- What is made of a call is proved for each way in which it may end.
  pub Ended-Post :
      {m : Outcome A × W} (f : Outcome A × W → Result D × W)
      → Ended Q C B m
      → ((a : A) (w : W) → Q a w → Post R E (f (responded a, w)))
      → ((code : Text) (status : ℕ) (w : W)
          → C code status w
          → Post R E (f (client_error code status, w)))
      → ((w : W) → B w → Post R E (f (transport_error, w)))
      → Post R E (f m)
  Ended-Post f (has_responded h) q c b = q _ _ h
  Ended-Post f (has_client_error h) q c b = c _ _ _ h
  Ended-Post f (has_transport_error h) q c b = b _ h

-- The codes of an absent key; a HEAD has no body, so its code is the status.
abbrev pub IsNoSuchKey : Text → Type 0
IsNoSuchKey code = (code ≡ text "NoSuchKey") ⊎ (code ≡ text "404")

-- The answers to a conditional write that S3 documents: 412, 409, and a failure of the service.
abbrev pub IsConditional : ℕ → Type 0
IsConditional status = (status ≡ 412) ⊎ ((status ≡ 409) ⊎ (500 ≤ status))

-- Any other refusal of a write to a bucket that is there is a failure: of credentials, of limits.
abbrev pub IsWriteError : Type 0 → Text → ℕ → Type 0
IsWriteError Fails code status =
    (¬ IsNoSuchKey code) × (status ≢ 404) × (IsConditional status ⊎ Fails)

is_no_such_key-IsNoSuchKey : (code : Text) → is_no_such_key code ≡ true → IsNoSuchKey code
unfolding is_no_such_key
is_no_such_key-IsNoSuchKey code h = elim (Bool-cases (text_eq code (text "NoSuchKey"))) [
  | inl is ↦ inl ((text_eq_iff code (text "NoSuchKey")).0 is)
  | inr other ↦ inr ((text_eq_iff code (text "404")).0 (rw other at h))
]

pub is_no_such_key-false : (code : Text) → ¬ IsNoSuchKey code → is_no_such_key code ≡ false
is_no_such_key-false code h = elim (Bool-cases (is_no_such_key code)) [
  | inl is ↦ absurd (h (is_no_such_key-IsNoSuchKey code is))
  | inr other ↦ other
]

is_missing-false :
    (code : Text) (status : ℕ) → ¬ IsNoSuchKey code → status ≢ 404 → is_missing code status ≡ false
unfolding is_missing
is_missing-false code status h k = rw (is_no_such_key-false code h) (ground (arith, k))

pub right_true : (a b : Bool) → b ≡ true → (a || b) ≡ true
right_true true b h = refl
right_true false b h = h

left_true : (a b : Bool) → a ≡ true → (a || b) ≡ true
left_true true b h = refl
left_true false b h = absurd (cc h)

is_failure :
    (Fails : Type 0) (code : Text) (status : ℕ)
    → is_precondition_failed code status ≡ false
    → is_conflict code status ≡ false
    → is_outcome_unknown code status ≡ false
    → IsConditional status ⊎ Fails
    → Fails
is_failure Fails code status a b c (inr fails) = fails
is_failure Fails code status a b c (inl (inl is)) =
    let yes : is_precondition_failed code status ≡ true =
      unfold is_precondition_failed in right_true _ (status == 412) ((==_iff status 412).1 is) in
    absurd (cc (yes, a))
is_failure Fails code status a b c (inl (inr (inl is))) =
    let yes : is_conflict code status ≡ true =
      unfold is_conflict in right_true _ (status == 409) ((==_iff status 409).1 is) in
    absurd (cc (yes, b))
is_failure Fails code status a b c (inl (inr (inr le))) =
    let yes : is_outcome_unknown code status ≡ true =
      unfold is_outcome_unknown in left_true (leb 500 status) _ (le→leb 500 status le) in
    absurd (cc (yes, c))

-- Of the answers to a conditional write, one that says who holds the key or that the outcome is
-- unknown is one of the three that the caller resolves.
pub conditional_error-IsRefused :
    (Fails : Type 0) (code : Text) (status : ℕ)
    → IsWriteError Fails code status
    → IsRefused (conditional_error code status)
      ⊎ ((conditional_error code status ≡ external_service) × Fails)
unfolding conditional_error
conditional_error-IsRefused Fails code status (there, found, answer) =
    elim (Bool-cases (is_precondition_failed code status)) [
      | inl exists ↦ rw exists (inl (inl refl))
      | inr no_412 ↦
          rw (no_412, is_missing-false code status there found)
            (elim (Bool-cases (is_conflict code status)) [
              | inl raced ↦ rw raced (inl (inr (inl refl)))
              | inr no_409 ↦ rw no_409 (elim (Bool-cases (is_outcome_unknown code status)) [
                | inl unknown ↦ rw unknown (inl (inr (inr refl)))
                | inr known ↦
                    rw known (inr (refl, is_failure Fails code status no_412 no_409 known answer))
              ])
            ])
    ]
