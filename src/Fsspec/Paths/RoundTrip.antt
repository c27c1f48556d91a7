-- ===== src/Fsspec/Paths/RoundTrip.antt =====
-- A generation has one path, but for a newline at its end.
use mathlib.Core.List.{append-nil, append_assoc}
use mathlib.Core.Path.{subst₂}
use ducklake_serverless.Base.{
  ℕ, zero, suc, ◌+◌, ◌*◌, ◌≤◌, ◌<◌, ◌≡◌, ◌↔◌, ◌⊎◌, inl, inr, refl, ap, sym, ◌∙◌, Text, text,
  strip_prefix, strip_prefix-append, strip_prefix-eq-some, some, Option-cases, List, [], ◌∷◌, ◌++◌,
  map, ltb, true, arith,
}
use ducklake_serverless.Models.Digits.{of_digits}
use ducklake_serverless.Models.Pattern.{decimal_char, at_end, >>=-eq-some}
use ducklake_serverless.Fsspec.Paths.{
  decimal_value, read_digits, canonical_digits, gen_re, digits_of, gen_path,
}
use ducklake_serverless.Fsspec.Paths.Digits.{
  Decimal, decimal_value-char, decimal_value-eq-some, Leads, digits_of-Leads, of_digits-digits_of,
  digits_of-of_digits,
}

-- `$`: the end, or a newline before it.
abbrev IsTail : Text → Type 0
IsTail tail = (tail ≡ []) ⊎ (tail ≡ 10 ∷ [])

read_digits-tail : (tail : Text) → IsTail tail → read_digits tail ≡ ([], tail)
unfolding read_digits decimal_value
read_digits-tail tail (inl e) = rw e refl
read_digits-tail tail (inr e) = rw e refl

at_end-tail : (tail : Text) → IsTail tail → at_end tail ≡ some tt
unfolding at_end
at_end-tail tail (inl e) = rw e refl
at_end-tail tail (inr e) = rw e refl

at_end-IsTail : (tail : Text) (u : Unit {0}) → at_end tail ≡ some u → IsTail tail
unfolding at_end
at_end-IsTail [] u e = inl refl
at_end-IsTail (c ∷ []) u e = inr (ap (λ x. x ∷ []) (ground (arith, e)))
at_end-IsTail (c ∷ d ∷ tail) u e = absurd (cc e)

read_digits-map :
    (ds : List ℕ) (tail : Text)
    → Decimal ds
    → IsTail tail
    → read_digits (map decimal_char ds ++ tail) ≡ (ds, tail)
unfolding read_digits
read_digits-map [] tail h t = read_digits-tail tail t
read_digits-map (d ∷ ds) tail h t =
    rw (decimal_value-char d h.0, read_digits)
      (ap (λ r. (d ∷ r.0, r.1)) (read_digits-map ds tail h.1 t))

read_digits-split :
    (s : Text)
    → Decimal (read_digits s).0 × (s ≡ map decimal_char (read_digits s).0 ++ (read_digits s).1)
unfolding read_digits
read_digits-split [] = (tt, refl)
read_digits-split (c ∷ s) = elim (Option-cases (decimal_value c)) [
  | inl other ↦ rw (other, read_digits) (tt, refl)
  | inr (d, digit) ↦
      let (is, small) = decimal_value-eq-some c d digit in
      let (rest, joined) = read_digits-split s in
      rw (digit, read_digits)
        ((small, rest), ap (λ x. x ∷ s) is ∙ ap (λ l. decimal_char d ∷ l) joined)
]

canonical_digits-Leads :
    (ds : List ℕ) (tail : Text)
    → Leads ds
    → IsTail tail
    → canonical_digits (map decimal_char ds ++ tail) ≡ some ds
unfolding canonical_digits
canonical_digits-Leads ds tail l t = rw l.is (
    rw (decimal_value-char (suc l.first) l.fits, canonical_digits)
      (rw (read_digits-map l.others tail l.decimal t, at_end-tail tail t) refl))

canonical_digits-gen_path :
    (n : ℕ) (tail : Text)
    → IsTail tail
    → canonical_digits (map decimal_char (digits_of n n) ++ tail) ≡ some (digits_of n n)
canonical_digits-gen_path zero tail t =
    unfold canonical_digits digits_of decimal_value decimal_char in rw (at_end-tail tail t) refl
canonical_digits-gen_path (suc n) tail t =
    canonical_digits-Leads (digits_of (suc n) (suc n)) tail
      (digits_of-Leads (suc n) (suc n) (omega arith) (omega arith)) t

pub gen_re-gen_path :
    (n : ℕ) (tail : Text) → IsTail tail → gen_re (gen_path n ++ tail) ≡ some (digits_of n n)
unfolding gen_re gen_path
gen_re-gen_path n tail t =
    rw
      (
        append_assoc (text "gen/") (map decimal_char (digits_of n n)) tail,
        strip_prefix-append (text "gen/") (map decimal_char (digits_of n n) ++ tail),
      )
      (canonical_digits-gen_path n tail t)

-- A text that the pattern takes: its digits are those of their number.
abbrev Splits : Text → List ℕ → Type 0
Splits s ds =
    (tail : Text) × IsTail tail
    × (s ≡ map decimal_char ds ++ tail)
    × (digits_of (of_digits 10 0 ds) (of_digits 10 0 ds) ≡ ds)

zero-Splits : (s : Text) → IsTail s → Splits (decimal_char 0 ∷ s) (0 ∷ [])
unfolding of_digits digits_of
zero-Splits s t = (s, t, refl, refl)

digits_of_digit : (d : ℕ) → d < 10 → (fuel : ℕ) → d ≤ fuel → digits_of fuel d ≡ d ∷ []
unfolding digits_of
digits_of_digit d small zero le = refl
digits_of_digit d small (suc fuel) le =
    let one : ltb d 10 ≡ true = ground (arith, small) in rw one refl

digits-Splits :
    (d : ℕ) (ds : List ℕ) (tail : Text)
    → suc d < 10
    → Decimal ds
    → IsTail tail
    → Splits (decimal_char (suc d) ∷ (map decimal_char ds ++ tail)) (suc d ∷ ds)
digits-Splits d ds tail small decimal t =
    let from_first : of_digits 10 0 (suc d ∷ ds) ≡ of_digits 10 (suc d) ds =
      unfold of_digits in ap (λ n. of_digits 10 n ds) (no_carry (suc d)) in
    (
      tail,
      t,
      refl,
      ap (λ n. digits_of n n) from_first
          ∙ digits_of-of_digits (suc d) (suc d ∷ []) ds (omega arith)
              (digits_of_digit (suc d) small) decimal (of_digits 10 (suc d) ds) (omega arith),
    )
  where
    no_carry : (n : ℕ) → 0 * 10 + n ≡ n
    no_carry n = omega arith

canonical_digits-Splits : (s : Text) (ds : List ℕ) → canonical_digits s ≡ some ds → Splits s ds
unfolding canonical_digits
canonical_digits-Splits [] ds e = absurd (cc e)
canonical_digits-Splits (c ∷ s) ds e = elim (Option-cases (decimal_value c)) [
  | inl other ↦ absurd (cc (rw (other, canonical_digits) at e))
  | inr (zero, digit) ↦
      let (u, ends, is) =
        >>=-eq-some (at_end s) (λ _. some (0 ∷ [])) (rw (digit, canonical_digits) at e) in
      let same_ds : 0 ∷ [] ≡ ds = ground (arith, is) in
      rw (← same_ds, (decimal_value-eq-some c 0 digit).0) (zero-Splits s (at_end-IsTail s u ends))
  | inr (suc d, digit) ↦
      let (u, ends, is) =
        >>=-eq-some (at_end (read_digits s).1) (λ _. some (suc d ∷ (read_digits s).0))
          (rw (digit, canonical_digits) at e) in
      let same_ds : suc d ∷ (read_digits s).0 ≡ ds = ground (arith, is) in
      let (same, small) = decimal_value-eq-some c (suc d) digit in
      let (decimal, joined) = read_digits-split s in
      let split =
        digits-Splits d (read_digits s).0 (read_digits s).1 small decimal
          (at_end-IsTail (read_digits s).1 u ends) in
      subst₂ Splits (sym (ap (λ x. x ∷ s) same ∙ ap (λ l. decimal_char (suc d) ∷ l) joined)) same_ds
        split
]

-- A name stands for generation `n` just if it is the path of `n`, or that path with a newline
-- behind it: no other spelling of a number is taken for a generation, and no path for another one.
pub gen_re_iff :
    (name : Text) (n : ℕ)
    → ((ds : List ℕ) × (gen_re name ≡ some ds) × (of_digits 10 0 ds ≡ n))
      ↔ ((name ≡ gen_path n) ⊎ (name ≡ gen_path n ++ 10 ∷ []))
gen_re_iff name n = (to, from)
  where
    to :
        (ds : List ℕ) × (gen_re name ≡ some ds) × (of_digits 10 0 ds ≡ n)
        → (name ≡ gen_path n) ⊎ (name ≡ gen_path n ++ 10 ∷ [])
    to (ds, e, value) =
        let (rest, stripped, taken) =
          >>=-eq-some (strip_prefix (text "gen/") name) canonical_digits {b = ds}
            (unfold gen_re in e) in
        let is = strip_prefix-eq-some (text "gen/") name rest stripped in
        let (tail, t, joined, unique) = canonical_digits-Splits rest ds taken in
        let same : ds ≡ digits_of n n = sym unique ∙ ap (λ k. digits_of k k) value in
        let path : name ≡ gen_path n ++ tail =
          unfold gen_path in
          is
          ∙ ap (λ r. text "gen/" ++ r) (joined ∙ ap (λ l. map decimal_char l ++ tail) same)
          ∙ sym (append_assoc (text "gen/") (map decimal_char (digits_of n n)) tail) in
        elim t [
          | inl none_behind ↦
              inl (path ∙ ap (λ r. gen_path n ++ r) none_behind ∙ append-nil (gen_path n))
          | inr newline ↦ inr (path ∙ ap (λ r. gen_path n ++ r) newline)
        ]

    from :
        (name ≡ gen_path n) ⊎ (name ≡ gen_path n ++ 10 ∷ [])
        → (ds : List ℕ) × (gen_re name ≡ some ds) × (of_digits 10 0 ds ≡ n)
    from (inl e) = (
      digits_of n n,
      ap gen_re (e ∙ sym (append-nil (gen_path n))) ∙ gen_re-gen_path n [] (inl refl),
      of_digits-digits_of n n (omega arith),
    )
    from (inr e) = (
      digits_of n n,
      ap gen_re e ∙ gen_re-gen_path n (10 ∷ []) (inr refl),
      of_digits-digits_of n n (omega arith),
    )
