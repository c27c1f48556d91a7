-- ===== src/Fsspec/Paths.antt =====
-- fsspec_fs.py, `_GEN_RE` and `_strip_protocol`: the paths that name generations. What fsspec's own
-- `_strip_protocol` does is a parameter of the modules that use these.
pub mod Digits
pub mod RoundTrip
use ducklake_serverless.Base.{
  ℕ, zero, suc, ◌+◌, ◌-◌, ◌/◌, ◌%◌, Text, text, strip_prefix, Option, none, some, List, [], ◌∷◌,
  ◌++◌, map, length, ltb, leb, ◌==◌, ◌&&◌, if◌then◌else◌,
}
use ducklake_serverless.Errors.{Result, ok, err, value_error}
use ducklake_serverless.Models.Digits.{of_digits}
use ducklake_serverless.Models.Pattern.{Class, decimal_char, at_end, ◌>>=◌}

-- `stripped.lstrip("/")`
unfoldable pub lstrip_slash : Text → Text
lstrip_slash [] = []
lstrip_slash (c ∷ s) = let rest = lstrip_slash s in if c == 47 then rest else c ∷ s

-- `[0-9]`
unfoldable pub decimal_value : Class
decimal_value c = if leb 48 c && leb c 57 then some (c - 48) else none

-- `[0-9]*`, as many as there are, and what follows them.
unfoldable pub read_digits : Text → List ℕ × Text
read_digits [] = ([], [])
read_digits (c ∷ s) = elim (decimal_value c) [
  | none ↦ ([], c ∷ s)
  | some d ↦ let (ds, rest) = read_digits s in (d ∷ ds, rest)
]

-- `(0|[1-9][0-9]*)$`, with the digits of the group.
unfoldable pub canonical_digits : Text → Option (List ℕ)
canonical_digits [] = none
canonical_digits (c ∷ s) = elim (decimal_value c) [
  | none ↦ none
  | some zero ↦ do _ ← at_end s; some (0 ∷ [])
  | some (suc d) ↦ do _ ← at_end (read_digits s).1; some (suc d ∷ (read_digits s).0)
]

-- `_GEN_RE.match(name)`
unfoldable pub gen_re : Text → Option (List ℕ)
gen_re name = do rest ← strip_prefix (text "gen/") name; canonical_digits rest

-- The length from which on Python's `int` refuses a text.
abbrev pub max_str_digits : ℕ
max_str_digits = 4300

-- `int(m.group(1))`
unfoldable pub int_of : List ℕ → Result ℕ
int_of ds = if ltb max_str_digits (length ds) then err value_error else ok (of_digits 10 0 ds)

-- The digits of a number without leading zeros; the fuel is the number.
unfoldable pub digits_of : ℕ → ℕ → List ℕ
digits_of zero n = n ∷ []
digits_of (suc fuel) n =
    let more = digits_of fuel (n / 10) in if ltb n 10 then n ∷ [] else more ++ (n % 10) ∷ []

-- `f"gen/{n}"`
unfoldable pub gen_path : ℕ → Text
gen_path n = text "gen/" ++ map decimal_char (digits_of n n)
