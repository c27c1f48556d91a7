-- ===== src/Errors/Defs.antt =====
-- The error classes of errors.py, results, and the monad of calls on the store.
use ducklake_serverless.Base.{Bool, true, false, if◌then◌else◌, ◌≡◌, ◌⊎◌, inl, inr, refl}

-- One constructor for each class that is raised. Below the program's own, `botocore_error` is an
-- exception of botocore that nothing has wrapped, `out_of_fuel` is a model's fuel that has run out,
-- for which the program has no class, and the last row is Python's.
pub data Error : Type 0 where
  input_validation external_service object_not_found lake_not_initialized backend_unsafe : Error
  precondition_failed conditional_conflict ambiguous_cas conflict_abort : Error
  catalog_hygiene version_mismatch botocore_error out_of_fuel : Error
  assertion file_not_found is_a_directory not_implemented value_error index_error : Error

pub data Result (A : Type 0) : Type 0 where
  ok : A → Result A
  err : Error → Result A

pub Result-cases :
    {A : Type 0} (r : Result A) → ((a : A) × (r ≡ ok a)) ⊎ ((e : Error) × (r ≡ err e))
Result-cases (ok a) = inl (a, refl)
Result-cases (err e) = inr (e, refl)

-- `except ObjectNotFoundError`
unfoldable pub is_object_not_found : Error → Bool
is_object_not_found object_not_found = true
is_object_not_found _ = false

-- `except NotFoundError`: the class and its two subclasses, of which it is only these two that are
-- raised.
unfoldable pub is_not_found : Error → Bool
is_not_found object_not_found = true
is_not_found lake_not_initialized = true
is_not_found _ = false

-- What was done before a raise stays done, so the world comes back beside the error too.
abbrev pub Exec : Type 0 → Type 0 → Type 0
Exec W A = W → Result A × W

module _ {W A : Type 0} where
  abbrev pub pure : A → Exec W A
  pure a w = (ok a, w)

  abbrev pub raise : Error → Exec W A
  raise e w = (err e, w)

  abbrev pub lift : Result A → Exec W A
  lift r w = (r, w)

module _ {W A B : Type 0} where
  -- What follows a call: the rest at its value, or the error passed on.
  abbrev pub continue : (A → Exec W B) → Result A × W → Result B × W
  continue f (ok a, w) = f a w
  continue f (err e, w) = (err e, w)

  -- `try: … except`: the handler sees the result of the call, error or value.
  abbrev pub handle : Exec W A → (Result A → Exec W B) → Exec W B
  handle m f w = let (r, w') = m w in f r w'

-- What a `finally` block raises takes the place of what it follows.
abbrev pub cleaned : {A : Type 0} → Result A → Result (Unit {0}) → Result A
cleaned r (ok _) = r
cleaned r (err e) = err e

module _ {W A : Type 0} where
  -- `try: … finally`
  abbrev pub ensuring : Exec W A → Exec W (Unit {0}) → Exec W A
  ensuring m cleanup w = let (r, v) = m w in let (s, u) = cleanup v in (cleaned r s, u)

infixl 5 ◌>>=◌ ◌>>◌
abbrev pub ◌>>=◌ : {W A B : Type 0} → Exec W A → (A → Exec W B) → Exec W B
◌>>=◌ m f w = continue f (m w)

abbrev pub ◌>>◌ : {W A B : Type 0} → Exec W A → Exec W B → Exec W B
m >> k = m >>= λ _. k

-- The two ways in which a call that may raise ObjectNotFoundError goes on.
abbrev pub absent_or : {W A B : Type 0} → Exec W B → (A → Exec W B) → Result A → Exec W B
absent_or missing found (ok a) = found a
absent_or missing found (err e) = if is_object_not_found e then missing else raise e
