-- ===== src/Chunk/Reconstruct/Order.antt =====
-- Where the packs of the entries stand in `ordered`, and what the assembly of a first entry says.
use ducklake_serverless.Base.{
  ◌<◌, ◌≡◌, inl, inr, refl, arith, Text, Bytes, text_eq, text_eq_iff, text_eq_refl, Option, some,
  Option-cases, List, [], ◌∷◌, ◌++◌, Bool, true, any, length, take, drop, All, if◌then◌else◌,
}
use ducklake_serverless.Chunk.Manifest.{ManifestEntry}
use ducklake_serverless.Chunk.Build.Packing.{assemble}
use ducklake_serverless.Chunk.Reconstruct.{ordered_from, position_in}

-- Every pack stands in `ordered`.
abbrev has : List Text → Text → Bool
has ks sha = any (text_eq sha) ks

position_in-lt : (ks : List Text) (sha : Text) → has ks sha ≡ true → position_in ks sha < length ks
unfolding position_in
position_in-lt [] sha h = absurd (cc h)
position_in-lt (k ∷ ks) sha h =
    ground (arith, text_eq_iff k sha, text_eq_iff sha k, position_in-lt ks sha)

has-append : (xs ys : List Text) (sha : Text) → has xs sha ≡ true → has (xs ++ ys) sha ≡ true
has-append [] ys sha h = absurd (cc h)
has-append (x ∷ xs) ys sha h = ground (arith, has-append xs ys sha)

has-append_last : (xs : List Text) (sha : Text) → has (xs ++ sha ∷ []) sha ≡ true
has-append_last [] sha = rw (text_eq_refl sha) refl
has-append_last (x ∷ xs) sha = ground (arith, has-append_last xs sha)

abbrev pub next_order : List Text → Text → List Text
next_order acc sha = if any (text_eq sha) acc then acc else acc ++ sha ∷ []

next_order-keeps :
    (acc : List Text) (new sha : Text) → has acc sha ≡ true → has (next_order acc new) sha ≡ true
next_order-keeps acc new sha h = ground (arith, has-append acc (new ∷ []) sha)

next_order-has : (acc : List Text) (new : Text) → has (next_order acc new) new ≡ true
next_order-has acc new = ground (arith, has-append_last acc new)

ordered_from-keeps :
    (es : List ManifestEntry) (acc : List Text) (sha : Text)
    → has acc sha ≡ true
    → has (ordered_from acc es) sha ≡ true
unfolding ordered_from
ordered_from-keeps [] acc sha h = h
ordered_from-keeps (e ∷ es) acc sha h =
    ordered_from-keeps es (next_order acc e.pack_sha256) sha
      (next_order-keeps acc e.pack_sha256 sha h)

-- Every entry's pack has a position.
abbrev pub Placed : List Text → List ManifestEntry → Type 0
Placed ordered = All (λ e. position_in ordered e.pack_sha256 < length ordered)

pub ordered_from-Placed :
    (es : List ManifestEntry) (acc : List Text) (all_of : List Text)
    → ((sha : Text) → has (ordered_from acc es) sha ≡ true → has all_of sha ≡ true)
    → Placed all_of es
unfolding ordered_from
ordered_from-Placed [] acc all_of h = tt
ordered_from-Placed (e ∷ es) acc all_of h = (
  position_in-lt all_of e.pack_sha256 (
      h e.pack_sha256 (
        ordered_from-keeps es (next_order acc e.pack_sha256) e.pack_sha256
          (next_order-has acc e.pack_sha256))),
  ordered_from-Placed es (next_order acc e.pack_sha256) all_of h,
)

-- What the assembly of a first entry says.
pub record Assembled (pack_at : Text → Option Bytes) (e : ManifestEntry) (es : List ManifestEntry)
    (bytes : Bytes) : Type 0 where
  pub body : Bytes
  pub found : pack_at e.pack_sha256 ≡ some body
  pub whole : length (take e.length (drop e.pack_offset body)) ≡ e.length
  pub rest : Bytes
  pub after : assemble pack_at es ≡ some rest
  pub joined : bytes ≡ take e.length (drop e.pack_offset body) ++ rest

pub assemble-Assembled :
    (pack_at : Text → Option Bytes) (e : ManifestEntry) (es : List ManifestEntry) (bytes : Bytes)
    → assemble pack_at (e ∷ es) ≡ some bytes
    → Assembled pack_at e es bytes
unfolding assemble
assemble-Assembled pack_at e es bytes h = elim (Option-cases (pack_at e.pack_sha256)) [
  | inl gone ↦ absurd (ground (arith, gone, h))
  | inr (body, there) ↦ elim (Option-cases (assemble pack_at es)) [
    | inl broken ↦ absurd (ground (arith, there, broken, h))
    | inr (rest, after) ↦ record {
      body = body;
      found = there;
      whole = ground (arith, there, after, h);
      rest = rest;
      after = after;
      joined = ground (arith, there, after, h);
    }
  ]
]
