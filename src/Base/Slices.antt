-- ===== src/Base/Slices.antt =====
-- Slices: what `take` and `drop` give of joined lists and of slices.
use Prim.Native.Nat.{ℕ, zero, suc, ◌+◌, ◌-◌, ◌≤◌, min}
use mathlib.Core.Path.{◌≡◌, refl, ap, sym, ◌∙◌}
use mathlib.Core.List.{List, [], ◌∷◌, ◌++◌}
use native.Mathlib.Nat.{zero-sub, zero-add, suc-add}
use native.Mathlib.Numerals.{unary_clauses}
use native.Mathlib.Omega.{arith}
use ducklake_serverless.Base.Lists.{take, drop, length, length-drop}

module _ {ℓ} {A : Type ℓ} where
  take-append : (k : ℕ) (xs ys : List A) → take k (xs ++ ys) ≡ take k xs ++ take (k - length xs) ys
  take-append zero [] ys = refl
  take-append zero (x ∷ xs) ys = rw (zero-sub (suc (length xs))) refl
  take-append (suc k) [] ys = simp unary_clauses refl
  take-append (suc k) (x ∷ xs) ys = simp unary_clauses (ap (λ l. x ∷ l) (take-append k xs ys))

  drop-append : (d : ℕ) (xs ys : List A) → d ≤ length xs → drop d (xs ++ ys) ≡ drop d xs ++ ys
  drop-append zero xs ys h = refl
  drop-append (suc d) [] ys h = absurd (omega (arith, h))
  drop-append (suc d) (x ∷ xs) ys h = drop-append d xs ys (omega (arith, h))

  drop-nil : (d : ℕ) → drop {A = A} d [] ≡ []
  drop-nil zero = refl
  drop-nil (suc d) = refl

  take-nil : (k : ℕ) → take {A = A} k [] ≡ []
  take-nil zero = refl
  take-nil (suc k) = refl

  pub drop-add : (b a : ℕ) (xs : List A) → drop a (drop b xs) ≡ drop (b + a) xs
  drop-add zero a xs = rw (zero-add a) refl
  drop-add (suc b) a [] = drop-nil a ∙ sym (drop-nil (suc b + a))
  drop-add (suc b) a (x ∷ xs) = drop-add b a xs ∙ ap (λ n. drop n (x ∷ xs)) (suc_plus b a)
    where
      suc_plus : (b a : ℕ) → suc (b + a) ≡ suc b + a
      suc_plus b a = omega arith

  take-take : (c k : ℕ) (xs : List A) → c ≤ k → take c (take k xs) ≡ take c xs
  take-take zero k xs h = refl
  take-take (suc c) zero xs h = absurd (omega (arith, h))
  take-take (suc c) (suc k) [] h = refl
  take-take (suc c) (suc k) (x ∷ xs) h = ap (λ l. x ∷ l) (take-take c k xs (omega (arith, h)))

  slice-take :
      (c a k : ℕ) (xs : List A) → a + c ≤ k → take c (drop a (take k xs)) ≡ take c (drop a xs)
  slice-take c zero k xs h = take-take c k xs (omega (arith, h))
  slice-take c (suc a) zero xs h = absurd (omega (arith, h))
  slice-take c (suc a) (suc k) [] h = refl
  slice-take c (suc a) (suc k) (x ∷ xs) h = slice-take c a k xs (omega (arith, h))

  -- A slice of a slice.
  pub slice-slice :
      (c a k b : ℕ) (xs : List A)
      → a + c ≤ k
      → take c (drop a (take k (drop b xs))) ≡ take c (drop (b + a) xs)
  slice-slice c a k b xs h = slice-take c a k (drop b xs) h ∙ ap (take c) (drop-add b a xs)

  -- Two slices that meet.
  pub take-add :
      (a b o : ℕ) (xs : List A)
      → take a (drop o xs) ++ take b (drop (o + a) xs) ≡ take (a + b) (drop o xs)
  take-add a b o xs =
      ap (λ l. take a (drop o xs) ++ take b l) (sym (drop-add o a xs)) ∙ joined a (drop o xs)
    where
      joined : (a : ℕ) (ys : List A) → take a ys ++ take b (drop a ys) ≡ take (a + b) ys
      joined zero ys = rw (zero-add b) refl
      joined (suc a) [] = take-nil b ∙ sym (take-nil (suc a + b))
      joined (suc a) (y ∷ ys) = rw (suc-add a b) (ap (λ l. y ∷ l) (joined a ys))

  pub take-min : (k : ℕ) (xs : List A) → take (min k (length xs)) xs ≡ take k xs
  take-min zero xs = simp unary_clauses refl
  take-min (suc k) [] = simp unary_clauses refl
  take-min (suc k) (x ∷ xs) = simp unary_clauses (ap (λ l. x ∷ l) (take-min k xs))

  -- A slice of two lists that begins in the first.
  pub slice-append :
      (k d : ℕ) (xs ys : List A)
      → d ≤ length xs
      → take k (drop d (xs ++ ys))
        ≡ take (min k (length xs - d)) (drop d xs) ++ take (k - (length xs - d)) ys
  slice-append k d xs ys h =
      ap (take k) (drop-append d xs ys h)
      ∙ take-append k (drop d xs) ys
      ∙ rw (← length-drop d xs, take-min k (drop d xs)) refl
