-- ===== src/Models/Digits.antt =====
-- Fixed-width digits: `f"{n:08d}"`, the 32 hexadecimal digits of a UUID, and Python's `int`.
use mathlib.Core.List.{append_assoc, append-nil}
use native.Mathlib.Nat.{
  div-lt_iff_lt-mul, mod-lt, div-add-mod', mul-add-div_right, div-eq_of_lt, mul-add-mod_self_right,
  mod-eq_of_lt, zero-add, add-zero,
}
use ducklake_serverless.Base.{
  ℕ, zero, suc, ◌+◌, ◌*◌, ◌/◌, ◌%◌, ◌<◌, ◌≡◌, refl, ◌∙◌, List, [], ◌∷◌, ◌++◌, arith, All, length,
  length-append,
}

-- The last `w` digits of `n` in base `b`, the most significant first.
unfoldable pub pad_digits : ℕ → ℕ → ℕ → List ℕ
pad_digits b zero n = []
pad_digits b (suc w) n = pad_digits b w (n / b) ++ (n % b) ∷ []

-- `int(digits, b)`, from the left.
unfoldable pub of_digits : ℕ → ℕ → List ℕ → ℕ
of_digits b acc [] = acc
of_digits b acc (d ∷ ds) = of_digits b (acc * b + d) ds

-- How many numbers `w` digits can write.
abbrev pub capacity : ℕ → ℕ → ℕ
capacity b zero = 1
capacity b (suc w) = capacity b w * b

pub length-pad_digits : (b w n : ℕ) → length (pad_digits b w n) ≡ w
unfolding pad_digits
length-pad_digits b zero n = refl
length-pad_digits b (suc w) n =
    omega
      (arith, length-append (pad_digits b w (n / b)) ((n % b) ∷ []), length-pad_digits b w (n / b))

All-pad_digits-snoc :
    (b d : ℕ) (ds : List ℕ) → All (λ x. x < b) ds → d < b → All (λ x. x < b) (ds ++ d ∷ [])
All-pad_digits-snoc b d [] h k = (k, tt)
All-pad_digits-snoc b d (x ∷ ds) h k = (h.0, All-pad_digits-snoc b d ds h.1 k)

pub pad_digits-lt : (b w n : ℕ) → 0 < b → All (λ x. x < b) (pad_digits b w n)
unfolding pad_digits
pad_digits-lt b zero n h = tt
pad_digits-lt b (suc w) n h =
    All-pad_digits-snoc b (n % b) (pad_digits b w (n / b)) (pad_digits-lt b w (n / b) h)
      (mod-lt n h)

pub of_digits-snoc :
    (b acc d : ℕ) (ds : List ℕ) → of_digits b acc (ds ++ d ∷ []) ≡ of_digits b acc ds * b + d
unfolding of_digits
of_digits-snoc b acc d [] = refl
of_digits-snoc b acc d (x ∷ ds) = of_digits-snoc b (acc * b + x) d ds

pub of_digits-pad_digits :
    (b w n : ℕ) → 0 < b → n < capacity b w → of_digits b 0 (pad_digits b w n) ≡ n
unfolding pad_digits
of_digits-pad_digits b zero n h k = unfold of_digits in omega arith
of_digits-pad_digits b (suc w) n h k =
    of_digits-snoc b 0 (n % b) (pad_digits b w (n / b))
    ∙ rw (of_digits-pad_digits b w (n / b) h ((div-lt_iff_lt-mul h).1 k)) (div-add-mod' n b)

shift : (m w : ℕ) → suc m + w ≡ m + suc w
shift m w = omega arith

quotient : (b acc d : ℕ) → 0 < b → d < b → (acc * b + d) / b ≡ acc
quotient b acc d h k = mul-add-div_right h acc d ∙ rw (div-eq_of_lt k) (add-zero acc)

remainder : (b acc d : ℕ) → d < b → (acc * b + d) % b ≡ d
remainder b acc d k = mul-add-mod_self_right acc b d ∙ mod-eq_of_lt k

last_digit :
    (b w acc d : ℕ) (ds : List ℕ)
    → 0 < b
    → d < b
    → pad_digits b (suc w) (acc * b + d) ++ ds ≡ pad_digits b w acc ++ d ∷ ds
unfolding pad_digits
last_digit b w acc d ds h k =
    rw (quotient b acc d h k, remainder b acc d k) (append_assoc (pad_digits b w acc) (d ∷ []) ds)

pad_digits-of_digits_acc :
    (b w acc : ℕ) (ds : List ℕ)
    → 0 < b
    → All (λ x. x < b) ds
    → pad_digits b (length ds + w) (of_digits b acc ds) ≡ pad_digits b w acc ++ ds
unfolding of_digits
pad_digits-of_digits_acc b w acc [] h k = rw (zero-add, append-nil)
pad_digits-of_digits_acc b w acc (d ∷ ds) h k =
    rw (shift (length ds) w)
      (pad_digits-of_digits_acc b (suc w) (acc * b + d) ds h k.1 ∙ last_digit b w acc d ds h k.0)

-- Fixed-width text has one number, and that number has this text.
pub pad_digits-of_digits :
    (b : ℕ) (ds : List ℕ)
    → 0 < b
    → All (λ x. x < b) ds
    → pad_digits b (length ds) (of_digits b 0 ds) ≡ ds
unfolding pad_digits
pad_digits-of_digits b ds h k = rw (add-zero (length ds)) at (pad_digits-of_digits_acc b 0 0 ds h k)
