-- ===== src/Chunk/Reconstruct.antt =====
-- chunk.py, `reconstruct`: the payload from its packs, fetched in windows. The threads of a window
-- only read, and stand in the order of the window here; the file is its bytes.
pub mod Order
pub mod Fetches
pub mod Refines
pub mod Keeps
use ducklake_serverless.Base.{
  ℕ, zero, suc, ◌+◌, Text, Bytes, text_eq, Option, none, some, List, [], ◌∷◌, ◌++◌, Bool, true,
  false, any, leb, ◌==◌, length, take, drop, if◌then◌else◌,
}
use ducklake_serverless.Errors.{Result, ok, err, external_service, Exec, pure, raise, ◌>>=◌}
use ducklake_serverless.Store.{ObjectStore}
use ducklake_serverless.Chunk.Manifest.{Manifest, ManifestEntry, format_pack_key}

abbrev pub window_packs : ℕ
window_packs = 32

-- `ordered`: the packs by their first use.
unfoldable pub ordered_from : List Text → List ManifestEntry → List Text
ordered_from acc [] = acc
ordered_from acc (e ∷ es) =
    ordered_from (if any (text_eq e.pack_sha256) acc then acc else acc ++ e.pack_sha256 ∷ []) es

-- `position`: where a pack stands in `ordered`.
unfoldable pub position_in : List Text → Text → ℕ
position_in [] sha = 0
position_in (k ∷ ks) sha = if text_eq k sha then 0 else suc (position_in ks sha)

-- `bodies.get(sha)`
unfoldable pub body_get : List (Text × Bytes) → Text → Option Bytes
body_get [] sha = none
body_get ((k, b) ∷ bodies) sha = if text_eq k sha then some b else body_get bodies sha

-- What is left to write, the slot for back references, and what is written.
pub record Progress : Type 0 where
  pub left : List ManifestEntry
  pub back_ref : Option (Text × Bytes)
  pub written : Bytes

module _ {W : Type 0} (store : ObjectStore W) (sha256 : Bytes → Text) where
  unfoldable pub fetch : Text → Exec W (Text × Bytes)
  fetch sha = do
    result ← store.get (format_pack_key sha)
    if text_eq (sha256 result.body) sha then pure (sha, result.body) else raise external_service

  unfoldable pub fetch_all : List Text → Exec W (List (Text × Bytes))
  fetch_all [] w = (ok [], w)
  fetch_all (sha ∷ window) w =
      (do body ← fetch sha; bodies ← (λ u. fetch_all window u); pure (body ∷ bodies)) w

  -- The slot, if it holds this pack.
  abbrev pub fetch_back : Text → Option (Text × Bytes) → Exec W (Text × Bytes)
  fetch_back sha none = fetch sha
  fetch_back sha (some slot) = if text_eq slot.0 sha then pure slot else fetch sha

  -- An entry's slice, which must be whole.
  abbrev pub piece_of : ManifestEntry → Bytes → Exec W Bytes
  piece_of e body =
      let piece = take e.length (drop e.pack_offset body) in
      if length piece == e.length then pure piece else raise external_service

  abbrev pub write_entry :
      (Progress → Exec W Progress)
      → List ManifestEntry
      → ManifestEntry
      → Option (Text × Bytes)
      → Bytes
      → Bytes
      → Exec W Progress
  write_entry go_on es e back_ref written body = do
    piece ← piece_of e body
    go_on (record { left = es; back_ref = back_ref; written = written ++ piece })

  -- An entry whose pack is in the window, or is not.
  abbrev pub in_window :
      Exec W Progress → (Bytes → Exec W Progress) → Option Bytes → Exec W Progress
  in_window outside inside none = outside
  in_window outside inside (some body) = inside body

  module _ (ordered : List Text) where
    -- The entries of one window, up to one whose pack a later window has.
    unfoldable pub write_entries :
        List (Text × Bytes)
        → ℕ
        → List ManifestEntry
        → Option (Text × Bytes)
        → Bytes
        → Exec W Progress
    write_entries bodies limit [] back_ref written w =
        (ok (record { left = []; back_ref = back_ref; written = written }), w)
    write_entries bodies limit (e ∷ es) back_ref written w =
        let go_on =
          λ (p : Progress) (u : W). write_entries bodies limit es p.back_ref p.written u in
        in_window
          (λ u.
            (if leb limit (position_in ordered e.pack_sha256)
              then (ok (record { left = e ∷ es; back_ref = back_ref; written = written }), u)
              else (do
                slot ← fetch_back e.pack_sha256 back_ref
                write_entry go_on es e (some slot) written slot.1)
                  u))
          (λ body. write_entry go_on es e back_ref written body) (body_get bodies e.pack_sha256) w

    -- One window after the other; each has at least one pack.
    unfoldable pub write_windows : ℕ → ℕ → List Text → Progress → Exec W Progress
    write_windows zero start rest p w = (ok p, w)
    write_windows (suc n) start [] p w = (ok p, w)
    write_windows (suc n) start (k ∷ ks) p w =
        let window = take window_packs (k ∷ ks) in
        (do
          bodies ← fetch_all window
          p' ← write_entries bodies (start + length window) p.left p.back_ref p.written
          (λ u. write_windows n (start + window_packs) (drop window_packs (k ∷ ks)) p' u))
          w

  -- The bytes of the file that is left; a failure leaves none.
  unfoldable pub reconstruct : Manifest → Exec W Bytes
  reconstruct manifest = do
    let ordered = ordered_from [] manifest.entries
    p ←
        write_windows ordered (length ordered) 0 ordered
          (record { left = manifest.entries; back_ref = none; written = [] })
    if text_eq (sha256 p.written) manifest.file_sha256
        then pure p.written
        else raise external_service
