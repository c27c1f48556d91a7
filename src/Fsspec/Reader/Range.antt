-- ===== src/Fsspec/Reader/Range.antt =====
-- `read_range` of a chunked reader, from the manifest on: the entry that the index finds, and what is
-- read from there.
use native.Mathlib.Nat.{zero-add}
use ducklake_serverless.Base.{
  ℕ, ◌+◌, ◌-◌, ◌<◌, ◌≡◌, inl, inr, refl, ap, sym, ◌∙◌, min, leb, ==_refl, arith, Text, Bytes,
  Option, some, [], Bool-cases, length, take, drop, All, pos,
}
use ducklake_serverless.Errors.{external_service, Post, Post-weaken, returned, lift, ◌>>=◌}
use ducklake_serverless.Store.{ObjectStore}
use ducklake_serverless.Chunk.Manifest.{Manifest}
use ducklake_serverless.Chunk.Build.Packing.{assemble}
use ducklake_serverless.Fsspec.Reader.{
  chunked_reader_of, starts_from, total_length, read_chunked, read_range,
}
use ducklake_serverless.Fsspec.Reader.Runs.{HasOwnChunk}
use ducklake_serverless.Fsspec.Reader.Exact.{read_runs-Post}
use ducklake_serverless.Fsspec.Reader.Fetch.{ServesRanges}
use ducklake_serverless.Fsspec.Reader.Seek.{
  total_length-assemble, length-starts_from, at_zero, slice-cut, seek,
}

module _ {W : Type 0} (store : ObjectStore W) (sha256 : Bytes → Text)
    (pack_at : Text → Option Bytes) (Stays : W → Type 0) (Fails : Type 0)
    (serves : ServesRanges store pack_at Stays Fails) where
  read_chunked-Post :
      (manifest : Manifest) (payload : Bytes) (start count : ℕ) (w : W)
      → assemble pack_at manifest.entries ≡ some payload
      → All (HasOwnChunk sha256 pack_at) manifest.entries
      → manifest.total_size ≡ length payload
      → Stays w
      → Post
          (λ out u. Stays u × (out ≡ take count (drop start payload)))
          (λ e u. (e ≡ external_service) × Fails)
          (read_chunked store sha256 manifest (starts_from 0 manifest.entries) start count w)
  unfolding read_chunked
  read_chunked-Post manifest payload start count w a h size stays =
      elim (Bool-cases (leb (min (start + count) manifest.total_size) start)) [
        | inl empty ↦
            let end = min (start + count) manifest.total_size in
            let none_left : end - start ≡ 0 = ground (arith, empty) in
            let nothing : [] ≡ take (end - start) (drop start payload) = rw none_left refl in
            rw empty (returned (stays, nothing ∙ slice-cut payload start count end (rw size refl)))
        | inr more ↦
            let end = min (start + count) manifest.total_size in
            let inside : start < end = ground (arith, more) in
            let t =
              seek sha256 pack_at manifest.entries 0 start payload a h (omega arith)
                (omega (arith, inside, size)) in
            rw (more, t.is)
              (Post-weaken
                (read_runs-Post store sha256 pack_at Stays Fails serves
                  (length (starts_from 0 manifest.entries)) end start t.start t.found [] t.rest w
                  (omega (arith, t.shorter, length-starts_from manifest.entries 0)) t.hashed
                  t.assembled (inl t.before) t.near (omega (arith, size, t.ends)) stays)
                (λ r u k. (
                  k.0,
                  k.1
                      ∙ ap (take (end - start)) (t.same ∙ at_zero start payload)
                      ∙ slice-cut payload start count end (rw size refl),
                ))
                λ e u k. k)
      ]

  -- If a ranged GET of a stored pack returns its slice as long as the packs are there, the entries
  -- of a manifest assemble to a payload of the size that it states, and each chunk hashes to the
  -- name in its entry, then the index is built, and `read_range` ends and returns just the bytes
  -- of the payload from `start` on, `count` of them or up to its end, however the range lies to the
  -- chunks and the packs; it raises nothing but ExternalServiceError, and that only where a GET may
  -- fail.
  pub read_range-assemble :
      (manifest : Manifest) (payload : Bytes) (start count : ℕ) (w : W)
      → assemble pack_at manifest.entries ≡ some payload
      → All (HasOwnChunk sha256 pack_at) manifest.entries
      → manifest.total_size ≡ length payload
      → Stays w
      → Post
          (λ out u. Stays u × (out ≡ take count (drop start payload)))
          (λ e u. (e ≡ external_service) × Fails)
          ((do
            reader ← lift (chunked_reader_of manifest)
            read_range store sha256 reader (pos start) (pos count))
            w)
  unfolding chunked_reader_of read_range
  read_range-assemble manifest payload start count w a h size stays =
      let tiles : total_length 0 manifest.entries ≡ manifest.total_size =
        total_length-assemble pack_at manifest.entries 0 payload a
        ∙ zero-add (length payload)
        ∙ sym size in
      rw (tiles, ==_refl manifest.total_size)
        (read_chunked-Post manifest payload start count w a h size stays)
