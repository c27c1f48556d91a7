-- ===== src/Chunk/Reconstruct/Keeps.antt =====
-- `reconstruct` only reads.
use ducklake_serverless.Base.{
  ℕ, zero, suc, ◌+◌, ◌==◌, inl, inr, Text, Bytes, text_eq, Option, none, some, List, [], ◌∷◌,
  Bool-cases, leb, length, take, drop,
}
use ducklake_serverless.Errors.{external_service, Exec}
use ducklake_serverless.Models.RootDoc.{JsonBytes}
use ducklake_serverless.Store.{ObjectStore}
use ducklake_serverless.Store.Markers.{KeepsMarkers}
use ducklake_serverless.Store.Keeps.{Keeps, pure-Keeps, raise-Keeps, bind-Keeps, get-Keeps}
use ducklake_serverless.Chunk.Manifest.{Manifest, ManifestEntry, format_pack_key}
use ducklake_serverless.Chunk.Reconstruct.{
  Progress, fetch, fetch_all, fetch_back, piece_of, write_entry, in_window, write_entries,
  write_windows, reconstruct, body_get, position_in, window_packs, ordered_from,
}

module _ {W : Type 0} (json : JsonBytes) (body_at : W → Text → Option Bytes) {Fails : Type 0}
    (store : ObjectStore W) (laws : KeepsMarkers json body_at store Fails)
    (sha256 : Bytes → Text) where
  fetch-Keeps : (sha : Text) → Keeps json body_at (fetch store sha256 sha)
  unfolding fetch
  fetch-Keeps sha =
      bind-Keeps json body_at (store.get (format_pack_key sha)) _
        (get-Keeps json body_at store laws (format_pack_key sha))
        λ r. elim (Bool-cases (text_eq (sha256 r.body) sha)) [
          | inl same ↦ rw same (pure-Keeps json body_at (sha, r.body))
          | inr other ↦ rw other (raise-Keeps json body_at external_service (λ e. cc e))
        ]

  fetch_all-Keeps : (window : List Text) → Keeps json body_at (fetch_all store sha256 window)
  unfolding fetch_all
  fetch_all-Keeps [] = pure-Keeps json body_at []
  fetch_all-Keeps (sha ∷ window) =
      bind-Keeps json body_at (fetch store sha256 sha) _ (fetch-Keeps sha) λ body.
        bind-Keeps json body_at (fetch_all store sha256 window) _ (fetch_all-Keeps window)
          λ bodies. pure-Keeps json body_at (body ∷ bodies)

  fetch_back-Keeps :
      (sha : Text) (slot : Option (Text × Bytes))
      → Keeps json body_at (fetch_back store sha256 sha slot)
  fetch_back-Keeps sha none = fetch-Keeps sha
  fetch_back-Keeps sha (some slot) = elim (Bool-cases (text_eq slot.0 sha)) [
    | inl same ↦ rw same (pure-Keeps json body_at slot)
    | inr other ↦ rw other (fetch-Keeps sha)
  ]

  piece_of-Keeps :
      (e : ManifestEntry) (body : Bytes) → Keeps json body_at (piece_of store sha256 e body)
  piece_of-Keeps e body =
      elim (Bool-cases (length (take e.length (drop e.pack_offset body)) == e.length)) [
        | inl whole ↦ rw whole (pure-Keeps json body_at (take e.length (drop e.pack_offset body)))
        | inr short ↦ rw short (raise-Keeps json body_at external_service (λ e. cc e))
      ]

  write_entry-Keeps :
      (go_on : Progress → Exec W Progress) (es : List ManifestEntry) (e : ManifestEntry)
      (slot : Option (Text × Bytes)) (written body : Bytes)
      → ((p : Progress) → Keeps json body_at (go_on p))
      → Keeps json body_at (write_entry store sha256 go_on es e slot written body)
  write_entry-Keeps go_on es e slot written body k =
      bind-Keeps json body_at (piece_of store sha256 e body) _ (piece_of-Keeps e body) λ piece. k _

  in_window-Keeps :
      (outside : Exec W Progress) (inside : Bytes → Exec W Progress) (o : Option Bytes)
      → Keeps json body_at outside
      → ((body : Bytes) → Keeps json body_at (inside body))
      → Keeps json body_at (in_window store sha256 outside inside o)
  in_window-Keeps outside inside none k h = k
  in_window-Keeps outside inside (some body) k h = h body

  module _ (ordered : List Text) where
    write_entries-Keeps :
        (bodies : List (Text × Bytes)) (limit : ℕ) (es : List ManifestEntry)
        (slot : Option (Text × Bytes)) (written : Bytes)
        → Keeps json body_at (write_entries store sha256 ordered bodies limit es slot written)
    unfolding write_entries
    write_entries-Keeps bodies limit [] slot written = pure-Keeps json body_at _
    write_entries-Keeps bodies limit (e ∷ es) slot written =
        let go_on : (p : Progress)
            → Keeps json body_at
                (λ u. write_entries store sha256 ordered bodies limit es p.back_ref p.written u) =
          λ p. write_entries-Keeps bodies limit es p.back_ref p.written in
        in_window-Keeps _ _ (body_get bodies e.pack_sha256)
          (elim (Bool-cases (leb limit (position_in ordered e.pack_sha256))) [
            | inl later ↦ rw later (
                pure-Keeps json body_at
                  (record { left = e ∷ es; back_ref = slot; written = written }))
            | inr back ↦ rw back (
                bind-Keeps json body_at (fetch_back store sha256 e.pack_sha256 slot) _
                  (fetch_back-Keeps e.pack_sha256 slot)
                  λ found. write_entry-Keeps _ es e (some found) written found.1 go_on)
          ])
          λ body. write_entry-Keeps _ es e slot written body go_on

    write_windows-Keeps :
        (n start : ℕ) (rest : List Text) (p : Progress)
        → Keeps json body_at (write_windows store sha256 ordered n start rest p)
    unfolding write_windows
    write_windows-Keeps zero start rest p = pure-Keeps json body_at p
    write_windows-Keeps (suc n) start [] p = pure-Keeps json body_at p
    write_windows-Keeps (suc n) start (k ∷ ks) p =
        bind-Keeps json body_at (fetch_all store sha256 (take window_packs (k ∷ ks))) _
          (fetch_all-Keeps (take window_packs (k ∷ ks)))
          λ bodies.
            bind-Keeps json body_at
              (write_entries store sha256 ordered bodies
                (start + length (take window_packs (k ∷ ks))) p.left p.back_ref p.written)
              _
              (write_entries-Keeps bodies (start + length (take window_packs (k ∷ ks))) p.left
                p.back_ref p.written)
              λ p'. write_windows-Keeps n (start + window_packs) (drop window_packs (k ∷ ks)) p'

  pub reconstruct-Keeps :
      (manifest : Manifest) → Keeps json body_at (reconstruct store sha256 manifest)
  unfolding reconstruct
  reconstruct-Keeps manifest =
      let ordered = ordered_from [] manifest.entries in
      let first : Progress = record { left = manifest.entries; back_ref = none; written = [] } in
      bind-Keeps json body_at (write_windows store sha256 ordered (length ordered) 0 ordered first)
        _ (write_windows-Keeps ordered (length ordered) 0 ordered first)
        λ p. elim (Bool-cases (text_eq (sha256 p.written) manifest.file_sha256)) [
          | inl same ↦ rw same (pure-Keeps json body_at p.written)
          | inr other ↦ rw other (raise-Keeps json body_at external_service (λ e. cc e))
        ]
