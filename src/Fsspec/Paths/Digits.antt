-- ===== src/Fsspec/Paths/Digits.antt =====
-- The digits of a number without leading zeros, and the number that they give back.
use mathlib.Core.List.{append-nil, append_assoc}
use ducklake_serverless.Base.{
  ℕ, zero, suc, ◌+◌, ◌-◌, ◌*◌, ◌/◌, ◌%◌, ◌≤◌, ◌<◌, ◌≡◌, inl, inr, ap, sym, ◌∙◌, some, List, [], ◌∷◌,
  ◌++◌, length, length-append, ltb, lt→ltb, Bool-cases, false, arith, All,
}
use ducklake_serverless.Models.Digits.{of_digits, of_digits-snoc}
use ducklake_serverless.Models.Pattern.{decimal_char}
use ducklake_serverless.Fsspec.Paths.{decimal_value, digits_of}

abbrev pub Decimal : List ℕ → Type 0
Decimal = All (λ d. d < 10)

pub decimal_value-char : (d : ℕ) → d < 10 → decimal_value (decimal_char d) ≡ some d
unfolding decimal_value decimal_char
decimal_value-char d h = ground (arith, h)

pub decimal_value-eq-some : (c d : ℕ) → decimal_value c ≡ some d → (c ≡ decimal_char d) × (d < 10)
unfolding decimal_value decimal_char
decimal_value-eq-some c d h = ground (arith, h)

-- A number above zero has digits without a leading zero.
pub record Leads (ds : List ℕ) : Type 0 where
  pub first : ℕ
  pub others : List ℕ
  pub is : ds ≡ suc first ∷ others
  pub fits : suc first < 10
  pub decimal : Decimal others

Decimal-append : (ds : List ℕ) (d : ℕ) → Decimal ds → d < 10 → Decimal (ds ++ d ∷ [])
Decimal-append [] d h k = (k, tt)
Decimal-append (x ∷ ds) d h k = (h.0, Decimal-append ds d h.1 k)

pub digits_of-Leads : (fuel n : ℕ) → n ≤ fuel → 0 < n → Leads (digits_of fuel n)
unfolding digits_of
digits_of-Leads zero n h k = absurd (omega (arith, h, k))
digits_of-Leads (suc fuel) n h k = elim (Bool-cases (ltb n 10)) [
  | inl one ↦ rw one (record {
    first = n - 1;
    others = [];
    is = ap (λ d. d ∷ []) (pred_suc n k);
    fits = ground (arith, one, k);
    decimal = tt;
  })
  | inr more ↦
      let big : 10 ≤ n = ground (arith, more) in
      let l = digits_of-Leads fuel (n / 10) (omega (arith, h, big)) (omega (arith, big)) in
      rw more (record {
        first = l.first;
        others = l.others ++ (n % 10) ∷ [];
        is = ap (λ ds. ds ++ (n % 10) ∷ []) l.is;
        fits = l.fits;
        decimal = Decimal-append l.others (n % 10) l.decimal (omega arith);
      })
]
  where
    pred_suc : (n : ℕ) → 0 < n → n ≡ suc (n - 1)
    pred_suc n k = omega (arith, k)

pub of_digits-digits_of : (fuel n : ℕ) → n ≤ fuel → of_digits 10 0 (digits_of fuel n) ≡ n
unfolding digits_of
of_digits-digits_of zero n h = unfold of_digits in omega (arith, h)
of_digits-digits_of (suc fuel) n h = elim (Bool-cases (ltb n 10)) [
  | inl one ↦ rw one (unfold of_digits in omega arith)
  | inr more ↦
      let big : 10 ≤ n = ground (arith, more) in
      rw (more, of_digits-snoc 10 0 (n % 10) (digits_of fuel (n / 10)))
        (rw (of_digits-digits_of fuel (n / 10) (omega (arith, h, big))) (omega arith))
]

one_digit_more :
    (m x : ℕ) (before : List ℕ)
    → 0 < m
    → x < 10
    → ((fuel : ℕ) → m ≤ fuel → digits_of fuel m ≡ before)
    → (fuel : ℕ) → m * 10 + x ≤ fuel
    → digits_of fuel (m * 10 + x) ≡ before ++ x ∷ []
unfolding digits_of
one_digit_more m x before k small h zero le = absurd (omega (arith, k, le))
one_digit_more m x before k small h (suc fuel) le =
    let big : ltb (m * 10 + x) 10 ≡ false = ground (arith, k) in
    let above : (m * 10 + x) / 10 ≡ m = omega (arith, small) in
    let last : (m * 10 + x) % 10 ≡ x = omega (arith, small) in
    rw (big, above, last) (ap (λ l. l ++ x ∷ []) (h fuel (omega (arith, k, le))))

-- Digits behind the digits of a number above zero.
pub digits_of-of_digits :
    (m : ℕ) (before rest : List ℕ)
    → 0 < m
    → ((fuel : ℕ) → m ≤ fuel → digits_of fuel m ≡ before)
    → Decimal rest
    → (fuel : ℕ) → of_digits 10 m rest ≤ fuel
    → digits_of fuel (of_digits 10 m rest) ≡ before ++ rest
unfolding of_digits
digits_of-of_digits m before [] k h d fuel le = h fuel le ∙ sym (append-nil before)
digits_of-of_digits m before (x ∷ rest) k h d fuel le =
    digits_of-of_digits (m * 10 + x) (before ++ x ∷ []) rest (omega (arith, k))
      (one_digit_more m x before k d.0 h) d.1 fuel le
    ∙ append_assoc before (x ∷ []) rest

-- The least number with more than `k + 1` digits.
abbrev pub above_digits : ℕ → ℕ
above_digits zero = 10
above_digits (suc k) = above_digits k * 10

pub length-digits_of : (fuel n k : ℕ) → n < above_digits k → length (digits_of fuel n) ≤ suc k
unfolding digits_of
length-digits_of zero n k h = omega arith
length-digits_of (suc fuel) n zero h = rw (lt→ltb n 10 h) (omega arith)
length-digits_of (suc fuel) n (suc k) h = elim (Bool-cases (ltb n 10)) [
  | inl one ↦ rw one (omega arith)
  | inr more ↦
      rw (more, length-append (digits_of fuel (n / 10)) ((n % 10) ∷ []))
        (omega (arith, length-digits_of fuel (n / 10) k (omega (arith, h))))
]
