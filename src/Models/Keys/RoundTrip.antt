-- ===== src/Models/Keys/RoundTrip.antt =====
-- Keys parse back to what they were formatted from.
use mathlib.Core.List.{append_assoc, append-nil}
use ducklake_serverless.Base.{
  ℕ, length, length-map, length-append, ltb, Bool-cases, inl, inr, ap, sym, ◌∙◌, ◌≢◌, ◌+◌, ◌<◌, ◌≤◌,
  ◌≡◌, refl, Text, some, ◌∷◌, ◌++◌, [], arith, strip_prefix,
}
use ducklake_serverless.Errors.{ok}
use ducklake_serverless.Models.Digits.{capacity, pad_digits, length-pad_digits}
use ducklake_serverless.Models.Pattern.{
  Class, hex_value, hex_char, decimal_char, hex_value-hex_char, read_number, at_end, number_text,
  read_number-number_text,
}
use ducklake_serverless.Models.Keys.{
  Uuid, IsUuid, payload_text, marker_text, uuid_text, generation_text, max_generation,
  format_payload_key, format_marker_key, read_uuid, parse_payload_key, parse_marker_key,
}

-- The class knows the ASCII digits.
abbrev pub ReadsAscii : Class → Type 0
ReadsAscii decimal = (d : ℕ) → d < 10 → decimal (48 + d) ≡ some d

hex_number :
    (w n : ℕ) (rest : Text)
    → n < capacity 16 w
    → read_number hex_value 16 w (number_text hex_char 16 w n ++ rest) ≡ some (n, rest)
hex_number w n rest h =
    read_number-number_text hex_value hex_char 16 hex_value-hex_char w n rest (omega arith) h

pub read_uuid-uuid_text :
    (u : Uuid) (rest : Text) → IsUuid u → read_uuid (uuid_text u ++ rest) ≡ some (u, rest)
unfolding read_uuid uuid_text strip_prefix
read_uuid-uuid_text u rest h = simp (append_assoc, hex_number, h.0, h.1, h.2, h.3, h.4)

pub read_number-generation_text :
    (decimal : Class) (g : ℕ) (rest : Text)
    → ReadsAscii decimal
    → g ≤ max_generation
    → read_number decimal 10 8 (generation_text g ++ rest) ≡ some (g, rest)
unfolding generation_text decimal_char
read_number-generation_text decimal g rest h k =
    read_number-number_text decimal decimal_char 10 h 8 g rest (omega arith) (omega arith)

pub format_payload_key-eq-ok :
    (g : ℕ) (u : Uuid) (key : Text)
    → format_payload_key g u ≡ ok key
    → (g ≤ max_generation) × (key ≡ payload_text g u)
unfolding format_payload_key
format_payload_key-eq-ok g u key e = elim (Bool-cases (ltb max_generation g)) [
  | inl over ↦ absurd (cc (over, e))
  | inr fits ↦ ground arith
]

pub format_marker_key-eq-ok :
    (g : ℕ) (key : Text)
    → format_marker_key g ≡ ok key
    → (g ≤ max_generation) × (key ≡ marker_text g)
unfolding format_marker_key
format_marker_key-eq-ok g key e = ground arith

module _ (decimal : Class) (h : ReadsAscii decimal) (g : ℕ) (fits : g ≤ max_generation) where
  parse_payload_key-payload_text :
      (u : Uuid) (rest : Text)
      → IsUuid u
      → at_end rest ≡ some tt
      → parse_payload_key decimal (payload_text g u ++ rest) ≡ ok (g, u)
  unfolding parse_payload_key strip_prefix
  parse_payload_key-payload_text u rest v e =
      simp (append_assoc, read_number-generation_text, h, fits, read_uuid-uuid_text, v, e)

  parse_marker_key-marker_text :
      (rest : Text)
      → at_end rest ≡ some tt
      → parse_marker_key decimal (marker_text g ++ rest) ≡ ok g
  unfolding parse_marker_key strip_prefix
  parse_marker_key-marker_text rest e = simp (read_number-generation_text, h, fits, e)

length-number_text : (char : ℕ → ℕ) (b w n : ℕ) → length (number_text char b w n) ≡ w
unfolding number_text
length-number_text char b w n = length-map (pad_digits b w n) char ∙ length-pad_digits b w n

-- Every payload key has 53 characters.
length-payload_text : (g : ℕ) (u : Uuid) → length (payload_text g u) ≡ 53
unfolding generation_text uuid_text
length-payload_text g u = simp (length-append, length-number_text) (omega arith)

abbrev pub newline : Text
newline = 10 ∷ []

-- If the class of digits knows the ASCII ones, a payload key that was formatted parses back to
-- its generation and its UUID, and so does the same key with a newline behind it, which no
-- call of `format_payload_key` returns.
pub parse_payload_key-format_payload_key :
    (decimal : Class) (g : ℕ) (u : Uuid) (key : Text)
    → ReadsAscii decimal
    → IsUuid u
    → format_payload_key g u ≡ ok key
    → (parse_payload_key decimal key ≡ ok (g, u))
      × (parse_payload_key decimal (key ++ newline) ≡ ok (g, u))
      × ((g' : ℕ) (u' : Uuid) → format_payload_key g' u' ≢ ok (key ++ newline))
parse_payload_key-format_payload_key decimal g u key h v e =
    let (fits, k) = format_payload_key-eq-ok g u key e in
    let parse = parse_payload_key-payload_text decimal h g fits u in
    (
      ap (parse_payload_key decimal) (k ∙ sym (append-nil (payload_text g u)))
          ∙ parse [] v (unfold at_end in refl),
      rw k (parse newline v (unfold at_end in refl)),
      λ g' u' e'. absurd (
          omega (
            arith,
            ap length (format_payload_key-eq-ok g' u' (key ++ newline) e').1,
            ap length k,
            length-payload_text g u,
            length-payload_text g' u',
            length-append key newline,
          )),
    )

-- If the class of digits knows the ASCII ones, a marker key that was formatted parses back to
-- its generation, and so does the same key with a newline behind it.
pub parse_marker_key-format_marker_key :
    (decimal : Class) (g : ℕ) (key : Text)
    → ReadsAscii decimal
    → format_marker_key g ≡ ok key
    → (parse_marker_key decimal key ≡ ok g) × (parse_marker_key decimal (key ++ newline) ≡ ok g)
parse_marker_key-format_marker_key decimal g key h e =
    let (fits, k) = format_marker_key-eq-ok g key e in
    let parse = parse_marker_key-marker_text decimal h g fits in
    (
      ap (parse_marker_key decimal) (k ∙ sym (append-nil (marker_text g)))
          ∙ parse [] (unfold at_end in refl),
      rw k (parse newline (unfold at_end in refl)),
    )

-- Two markers that have keys have different ones.
pub marker_text-injective :
    (g g' : ℕ) → g ≤ max_generation → g' ≤ max_generation → marker_text g ≡ marker_text g' → g ≡ g'
marker_text-injective g g' fits fits' e =
    let own = read_back g fits in let other = read_back g' fits' in cc (own, other, e)
  where
    read_back :
        (g : ℕ) → g ≤ max_generation → parse_marker_key hex_value (marker_text g ++ []) ≡ ok g
    read_back g fits =
        parse_marker_key-marker_text hex_value (λ d h. unfold hex_value in ground arith) g fits []
          (unfold at_end in refl)
