-- ===== src/Fsspec/Reader/Seek.antt =====
-- The entry that the index of a chunked reader finds for an offset.
use native.Mathlib.Nat.{sub-zero}
use ducklake_serverless.Base.{
  ℕ, suc, ◌+◌, ◌-◌, ◌≤◌, ◌<◌, ◌≡◌, inl, inr, refl, ap, sym, ◌∙◌, min, leb, leb→le, le→leb, arith,
  Text, Bytes, Option, some, List, [], ◌∷◌, false, Bool-cases, length, take, drop, length-append,
  length-drop, take-min, drop-add, drop-append_left, All,
}
use ducklake_serverless.Chunk.Manifest.{ManifestEntry}
use ducklake_serverless.Chunk.Build.Packing.{assemble}
use ducklake_serverless.Chunk.Reconstruct.Order.{Assembled, assemble-Assembled}
use ducklake_serverless.Fsspec.Reader.{starts_from, total_length, bisect_right}
use ducklake_serverless.Fsspec.Reader.Runs.{HasOwnChunk}
use ducklake_serverless.Fsspec.Reader.Exact.{Near}

length-Assembled :
    (pack_at : Text → Option Bytes) (e : ManifestEntry) (es : List ManifestEntry) (bytes : Bytes)
    (s : Assembled pack_at e es bytes)
    → length bytes ≡ e.length + length s.rest
length-Assembled pack_at e es bytes s = omega (
  arith,
  s.whole,
  ap length s.joined,
  length-append (take e.length (drop e.pack_offset s.body)) s.rest,
)

pub total_length-assemble :
    (pack_at : Text → Option Bytes) (es : List ManifestEntry) (off : ℕ) (bytes : Bytes)
    → assemble pack_at es ≡ some bytes
    → total_length off es ≡ off + length bytes
unfolding total_length
total_length-assemble pack_at [] off bytes a =
    let empty : bytes ≡ [] = unfold assemble in cc a in omega (arith, ap length empty)
total_length-assemble pack_at (e ∷ es) off bytes a =
    let s = assemble-Assembled pack_at e es bytes a in
    omega (
      arith,
      total_length-assemble pack_at es (off + e.length) s.rest s.after,
      length-Assembled pack_at e es bytes s,
    )

bisect_right-here :
    (e : ManifestEntry) (es : List ManifestEntry) (off x : ℕ)
    → off ≤ x
    → bisect_right (starts_from off (e ∷ es)) x
      ≡ suc (bisect_right (starts_from (off + e.length) es) x)
unfolding bisect_right starts_from
bisect_right-here e es off x h = rw (le→leb off x h) refl

bisect_right-past :
    (es : List ManifestEntry) (off x : ℕ) → x < off → bisect_right (starts_from off es) x ≡ 0
unfolding bisect_right starts_from
bisect_right-past [] off x h = refl
bisect_right-past (e ∷ es) off x h = let no : leb off x ≡ false = ground (arith, h) in rw no refl

drop-past :
    (pack_at : Text → Option Bytes) (e : ManifestEntry) (es : List ManifestEntry) (off x : ℕ)
    (bytes : Bytes) (s : Assembled pack_at e es bytes)
    → off + e.length ≤ x
    → drop (x - off) bytes ≡ drop (x - (off + e.length)) s.rest
drop-past pack_at e es off x bytes s far =
    let piece = take e.length (drop e.pack_offset s.body) in
    let there : x - off ≡ length piece + (x - (off + e.length)) = omega (arith, far, s.whole) in
    ap (λ n. drop n bytes) there
    ∙ sym (drop-add (length piece) (x - (off + e.length)) bytes)
    ∙ ap (drop (x - (off + e.length)))
        (ap (drop (length piece)) s.joined ∙ drop-append_left piece s.rest)

-- The entries from the one on that the index finds for `x`.
drop_first :
    (e : ManifestEntry) (es : List ManifestEntry) (off m k : ℕ)
    → m ≡ suc k
    → drop (suc m - 1) (starts_from off (e ∷ es)) ≡ drop (m - 1) (starts_from (off + e.length) es)
unfolding starts_from
drop_first e es off m k h =
    let tail = starts_from (off + e.length) es in
    let one_less : suc m - 1 ≡ suc k = omega (arith, h) in
    let two_less : k ≡ m - 1 = omega (arith, h) in
    ap (λ n. drop n ((off, e) ∷ tail)) one_less ∙ ap (λ n. drop n tail) two_less

pub length-starts_from :
    (es : List ManifestEntry) (off : ℕ) → length (starts_from off es) ≡ length es
unfolding starts_from
length-starts_from [] off = refl
length-starts_from (e ∷ es) off = ap suc (length-starts_from es (off + e.length))

pub at_zero : (x : ℕ) (bytes : Bytes) → drop (x - 0) bytes ≡ drop x bytes
at_zero x bytes = rw (sub-zero x) refl

-- A slice that is cut at the end of the payload.
pub slice-cut :
    (payload : Bytes) (start count end : ℕ)
    → end ≡ min (start + count) (length payload)
    → take (end - start) (drop start payload) ≡ take count (drop start payload)
slice-cut payload start count end h =
    let cut : end - start ≡ min count (length (drop start payload)) =
      omega (arith, h, length-drop start payload) in
    rw cut (take-min count (drop start payload))

pub record Sought (sha256 : Bytes → Text) (pack_at : Text → Option Bytes) (es : List ManifestEntry)
    (off x : ℕ) (bytes : Bytes) : Type 0 where
  pub start : ℕ
  pub found : List ManifestEntry
  pub rest : Bytes
  pub is :
      drop (bisect_right (starts_from off es) x - 1) (starts_from off es) ≡ starts_from start found
  pub assembled : assemble pack_at found ≡ some rest
  pub hashed : All (HasOwnChunk sha256 pack_at) found
  pub before : start ≤ x
  pub near : Near x start found
  pub shorter : length found ≤ length es
  pub same : drop (x - start) rest ≡ drop (x - off) bytes
  pub ends : start + length rest ≡ off + length bytes

module _ (sha256 : Bytes → Text) (pack_at : Text → Option Bytes) where
  seek_on :
      (e : ManifestEntry) (es : List ManifestEntry) (off x : ℕ) (bytes : Bytes)
      (s : Assembled pack_at e es bytes)
      → off + e.length ≤ x
      → x < off + length bytes
      → Sought sha256 pack_at es (off + e.length) x s.rest
      → Sought sha256 pack_at (e ∷ es) off x bytes
  seek_on e [] off x bytes s far within t =
      let empty : s.rest ≡ [] = unfold assemble in cc s.after in
      absurd (omega (arith, far, within, ap length empty, length-Assembled pack_at e [] bytes s))
  seek_on e (e' ∷ es) off x bytes s far within t = record {
    start = t.start;
    found = t.found;
    rest = t.rest;
    is =
        ap (λ n. drop (n - 1) (starts_from off (e ∷ e' ∷ es)))
          (bisect_right-here e (e' ∷ es) off x (omega (arith, far)))
        ∙ drop_first e (e' ∷ es) off (bisect_right (starts_from (off + e.length) (e' ∷ es)) x)
            (bisect_right (starts_from (off + e.length + e'.length) es) x)
            (bisect_right-here e' es (off + e.length) x far)
        ∙ t.is;
    assembled = t.assembled;
    hashed = t.hashed;
    before = t.before;
    near = t.near;
    shorter = omega (arith, t.shorter);
    same = t.same ∙ sym (drop-past pack_at e (e' ∷ es) off x bytes s far);
    ends = omega (arith, t.ends, length-Assembled pack_at e (e' ∷ es) bytes s);
  }

  pub seek :
      (es : List ManifestEntry) (off x : ℕ) (bytes : Bytes)
      → assemble pack_at es ≡ some bytes
      → All (HasOwnChunk sha256 pack_at) es
      → off ≤ x
      → x < off + length bytes
      → Sought sha256 pack_at es off x bytes
  seek [] off x bytes a h le lt =
      let empty : bytes ≡ [] = unfold assemble in cc a in
      absurd (omega (arith, le, lt, ap length empty))
  seek (e ∷ es) off x bytes a h le lt =
      let s = assemble-Assembled pack_at e es bytes a in
      elim (Bool-cases (leb (off + e.length) x)) [
        | inl far ↦
            let past = leb→le (off + e.length) x far in
            seek_on e es off x bytes s past lt (
              seek es (off + e.length) x s.rest s.after h.1 past
                (omega (arith, lt, length-Assembled pack_at e es bytes s)))
        | inr near ↦
            let close : x < off + e.length = ground (arith, near) in
            record {
              start = off;
              found = e ∷ es;
              rest = bytes;
              is =
                  rw
                    (bisect_right-here e es off x le, bisect_right-past es (off + e.length) x close)
                    refl;
              assembled = a;
              hashed = h;
              before = le;
              near = omega (arith, close);
              shorter = omega arith;
              same = refl;
              ends = refl;
            }
      ]
