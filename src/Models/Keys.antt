-- ===== src/Models/Keys.antt =====
-- models.py, `_check_generation` to `parse_marker_key`: the keys of payloads and markers.
pub mod RoundTrip
use ducklake_serverless.Base.{
  ℕ, ◌-◌, ◌^◌, ◌<◌, ◌≡◌, Text, Option, none, some, ◌∷◌, ◌++◌, [], text, strip_prefix, ltb, leb,
  Bool, true, arith, ◌&&◌, ◌==◌, if◌then◌else◌,
}
use ducklake_serverless.Errors.{Result, ok, err, input_validation}
use ducklake_serverless.Models.Digits.{capacity, pad_digits, of_digits}
use ducklake_serverless.Models.Pattern.{
  Class, ◌>>=◌, hex_value, hex_char, decimal_char, read_number, at_end, number_text,
}

-- `uuid.UUID`, by the five groups of its text.
pub record Uuid : Type 0 where
  pub time_low : ℕ
  pub time_mid : ℕ
  pub time_hi : ℕ
  pub clock_seq : ℕ
  pub node : ℕ

-- Each group is within its width, as it is in every `uuid.UUID`.
abbrev pub IsUuid : Uuid → Type 0
IsUuid u =
    (u.time_low < capacity 16 8)
    × (u.time_mid < capacity 16 4)
    × (u.time_hi < capacity 16 4)
    × (u.clock_seq < capacity 16 4)
    × (u.node < capacity 16 12)

unfoldable pub uuid_eq : Uuid → Uuid → Bool
uuid_eq u v =
    u.time_low == v.time_low
    && (u.time_mid == v.time_mid
        && (u.time_hi == v.time_hi && (u.clock_seq == v.clock_seq && u.node == v.node)))

pub uuid_eq-eq : (u v : Uuid) → uuid_eq u v ≡ true → u ≡ v
unfolding uuid_eq
uuid_eq-eq u v h = ground arith

pub uuid_eq_refl : (u : Uuid) → uuid_eq u u ≡ true
unfolding uuid_eq
uuid_eq_refl u = ground arith

-- `str(payload_uuid)`
unfoldable pub uuid_text : Uuid → Text
unfolding number_text
uuid_text u =
    number_text hex_char 16 8 u.time_low
    ++ (text "-"
        ++ (number_text hex_char 16 4 u.time_mid
            ++ (text "-"
                ++ (number_text hex_char 16 4 u.time_hi
                    ++ (text "-"
                        ++ (number_text hex_char 16 4 u.clock_seq
                            ++ (text "-" ++ number_text hex_char 16 12 u.node)))))))

abbrev pub payload_prefix : Text
payload_prefix = text "payload/"

abbrev pub roots_prefix : Text
roots_prefix = text "roots/"

-- The key format zero-pads to exactly eight digits.
abbrev pub max_generation : ℕ
max_generation = 99_999_999

-- `f"{generation:08d}"`, within the range that `_check_generation` lets through.
unfoldable pub generation_text : ℕ → Text
unfolding number_text
generation_text g = number_text decimal_char 10 8 g

abbrev pub payload_text : ℕ → Uuid → Text
payload_text g u = payload_prefix ++ (generation_text g ++ (text "-" ++ uuid_text u))

abbrev pub marker_text : ℕ → Text
marker_text g = roots_prefix ++ generation_text g

unfoldable pub format_payload_key : ℕ → Uuid → Result Text
format_payload_key g u =
    if ltb max_generation g then err input_validation else ok (payload_text g u)

unfoldable pub format_marker_key : ℕ → Result Text
format_marker_key g = if ltb max_generation g then err input_validation else ok (marker_text g)

-- What is left of a `Match`, or the error where there is none.
abbrev pub or_invalid : {A : Type 0} → Option A → Result A
or_invalid none = err input_validation
or_invalid (some a) = ok a

-- The group `[0-9a-f]{8}-[0-9a-f]{4}-[0-9a-f]{4}-[0-9a-f]{4}-[0-9a-f]{12}`, and `UUID` of it.
unfoldable pub read_uuid : Text → Option (Uuid × Text)
read_uuid s = do
  (a, s₁) ← read_number hex_value 16 8 s
  t₁ ← strip_prefix (text "-") s₁
  (b, s₂) ← read_number hex_value 16 4 t₁
  t₂ ← strip_prefix (text "-") s₂
  (c, s₃) ← read_number hex_value 16 4 t₂
  t₃ ← strip_prefix (text "-") s₃
  (d, s₄) ← read_number hex_value 16 4 t₃
  t₄ ← strip_prefix (text "-") s₄
  (e, s₅) ← read_number hex_value 16 12 t₄
  some (record { time_low = a; time_mid = b; time_hi = c; clock_seq = d; node = e }, s₅)

-- `\d` and the digits that `int` reads are those of Python's Unicode tables, here `decimal`.
module _ (decimal : Class) where
  unfoldable pub parse_payload_key : Text → Result (ℕ × Uuid)
  parse_payload_key key = or_invalid (do
    s ← strip_prefix payload_prefix key
    (g, s₁) ← read_number decimal 10 8 s
    s₂ ← strip_prefix (text "-") s₁
    (u, s₃) ← read_uuid s₂
    _ ← at_end s₃
    some (g, u))

  unfoldable pub parse_marker_key : Text → Result ℕ
  parse_marker_key key = or_invalid (do
    s ← strip_prefix roots_prefix key
    (g, s₁) ← read_number decimal 10 8 s
    _ ← at_end s₁
    some g)
