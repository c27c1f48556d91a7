-- ===== src/Models/Pattern.antt =====
-- The parts of the regular expressions of models.py: literals, and runs of one character class of
-- a fixed length, read from the left. None of the patterns can backtrack.
use ducklake_serverless.Base.{
  ℕ, zero, suc, ◌+◌, ◌-◌, ◌<◌, ◌≡◌, refl, List, [], ◌∷◌, ◌++◌, map, Text, Option, none, some, arith,
  ltb, leb, ◌==◌, ◌&&◌, if◌then◌else◌, All, length,
}
use ducklake_serverless.Models.Digits.{
  pad_digits, of_digits, capacity, pad_digits-lt, length-pad_digits, of_digits-pad_digits,
}

infixl 5 ◌>>=◌
abbrev pub ◌>>=◌ : {A B : Type 0} → Option A → (A → Option B) → Option B
none >>= f = none
some a >>= f = f a

pub >>=-eq-some :
    {A B : Type 0} (m : Option A) (f : A → Option B) {b : B}
    → (m >>= f) ≡ some b
    → (a : A) × (m ≡ some a) × (f a ≡ some b)
>>=-eq-some none f e = absurd (cc e)
>>=-eq-some (some a) f e = (a, refl, e)

-- A character class gives the digit that a character of it writes.
abbrev pub Class : Type 0
Class = ℕ → Option ℕ

-- `[0-9a-f]`
unfoldable pub hex_value : Class
hex_value c =
    if leb 48 c && leb c 57
    then some (c - 48)
    else if leb 97 c && leb c 102
    then some (c - 87)
    else none

unfoldable pub hex_char : ℕ → ℕ
hex_char d = if ltb d 10 then 48 + d else 87 + d

unfoldable pub decimal_char : ℕ → ℕ
decimal_char d = 48 + d

pub hex_value-hex_char : (d : ℕ) → d < 16 → hex_value (hex_char d) ≡ some d
unfolding hex_value hex_char
hex_value-hex_char d h = ground arith

-- `C{n}`: exactly `n` characters of the class.
unfoldable pub read_class : Class → ℕ → Text → Option (List ℕ × Text)
read_class cls zero s = some ([], s)
read_class cls (suc n) [] = none
read_class cls (suc n) (c ∷ s) = do d ← cls c; (ds, rest) ← read_class cls n s; some (d ∷ ds, rest)

-- The run read as a number in base `b`.
unfoldable pub read_number : Class → ℕ → ℕ → Text → Option (ℕ × Text)
read_number cls b n s = do (ds, rest) ← read_class cls n s; some (of_digits b 0 ds, rest)

-- `$` without MULTILINE: the end, or a newline that is the last character.
unfoldable pub at_end : Text → Option (Unit {0})
at_end [] = some tt
at_end (c ∷ []) = if c == 10 then some tt else none
at_end (c ∷ d ∷ s) = none

unfoldable pub number_text : (ℕ → ℕ) → ℕ → ℕ → ℕ → Text
number_text char b w n = map char (pad_digits b w n)

module _ (cls : Class) (char : ℕ → ℕ) (b : ℕ)
    (agrees : (d : ℕ) → d < b → cls (char d) ≡ some d) where
  read_class-map :
      (ds : List ℕ) (rest : Text)
      → All (λ x. x < b) ds
      → read_class cls (length ds) (map char ds ++ rest) ≡ some (ds, rest)
  unfolding read_class
  read_class-map [] rest h = refl
  read_class-map (d ∷ ds) rest h = rw (agrees d h.0, read_class-map ds rest h.1)

  pub read_number-number_text :
      (w n : ℕ) (rest : Text)
      → 0 < b
      → n < capacity b w
      → read_number cls b w (number_text char b w n ++ rest) ≡ some (n, rest)
  unfolding read_number number_text
  read_number-number_text w n rest h k =
      let e : read_class cls w (map char (pad_digits b w n) ++ rest)
          ≡ some (pad_digits b w n, rest) =
        rw (length-pad_digits b w n) at
          (read_class-map (pad_digits b w n) rest (pad_digits-lt b w n h)) in
      rw (e, of_digits-pad_digits b w n h k)
