-- ===== src/Fsspec/Reader/Fetch.antt =====
-- The ranged GET that serves a run, and how its slice joins what follows it.
use ducklake_serverless.Base.{
  ℕ, ◌+◌, ◌-◌, ◌≤◌, ◌≡◌, refl, sym, min, max, ==_refl, arith, Text, Bytes, Option, some, ◌∷◌, ◌++◌,
  length, take, drop, length-take, length-drop, slice-slice, slice-append, All,
}
use ducklake_serverless.Errors.{Error, external_service, Post, returned, Post-bind}
use ducklake_serverless.Store.{ObjectStore}
use ducklake_serverless.Chunk.Manifest.{ManifestEntry, format_pack_key}
use ducklake_serverless.Fsspec.Reader.{Indexed, fetch_run}
use ducklake_serverless.Fsspec.Reader.Runs.{InRun, verify_covered_chunks-InRun}

-- The store while the packs are there: a ranged GET of a stored pack returns the slice, cut at the
-- pack's end.
abbrev pub ServesRanges :
    {W : Type 0} → ObjectStore W → (Text → Option Bytes) → (W → Type 0) → Type 0 → Type 0
ServesRanges {W} store pack_at Stays Fails =
    (sha : Text) (body : Bytes) (start count : ℕ) (w : W)
    → pack_at sha ≡ some body
    → Stays w
    → Post (λ r w'. Stays w' × (r ≡ take count (drop start body)))
        (λ e w'. (e ≡ external_service) × Fails)
        (store.get_range (format_pack_key sha) start count w)

-- What a run gives, and what follows it, are the slice of the two together.
pub join_slices :
    (body rest : Bytes) (origin start here end stop count : ℕ)
    → start ≤ here
    → here ≤ stop
    → here ≤ end
    → stop ≡ start + count
    → length (take count (drop origin body)) ≡ count
    → take (min end stop - here) (drop (origin + (here - start)) body)
        ++ take (end - min end stop) (drop (min end stop - stop) rest)
      ≡ take (end - here) (drop (here - start) (take count (drop origin body) ++ rest))
join_slices body rest origin start here end stop count a b c is whole =
    let run = take count (drop origin body) in
    let inner : min end stop - here ≡ min (end - here) (length run - (here - start)) =
      rw whole (omega (arith, a, b, c, is)) in
    let behind : end - min end stop ≡ end - here - (length run - (here - start)) =
      rw whole (omega (arith, a, b, c, is)) in
    let none_before : min end stop - stop ≡ 0 = omega arith in
    let first =
      slice-slice (min end stop - here) (here - start) count origin body
        (omega (arith, a, b, c, is)) in
    rw (← first, none_before, behind, inner)
      (sym (slice-append (end - here) (here - start) run rest (rw whole (omega (arith, a, b, is)))))

module _ {W : Type 0} (store : ObjectStore W) (sha256 : Bytes → Text)
    (pack_at : Text → Option Bytes) (Stays : W → Type 0) (Fails : Type 0)
    (serves : ServesRanges store pack_at Stays Fails) where
  abbrev Failed : Error → W → Type 0
  Failed e w = (e ≡ external_service) × Fails

  length-slice :
      (body : Bytes) (origin count a c : ℕ)
      → length (take count (drop origin body)) ≡ count
      → a + c ≤ count
      → length (take c (drop (origin + a) body)) ≡ c
  length-slice body origin count a c whole le = omega (
    arith,
    length-take count (drop origin body),
    length-drop origin body,
    length-take c (drop (origin + a) body),
    length-drop (origin + a) body,
  )

  -- One ranged GET serves a run; its chunks pass the check.
  pub fetch_run-Post :
      (e : ManifestEntry) (run : Indexed) (body : Bytes) (here want_end start count : ℕ) (w : W)
      → pack_at e.pack_sha256 ≡ some body
      → All (InRun sha256 body start e.pack_offset) ((start, e) ∷ run)
      → length (take count (drop e.pack_offset body)) ≡ count
      → start ≤ here
      → here ≤ want_end
      → want_end ≤ start + count
      → Stays w
      → Post
          (λ r u.
            Stays u × (r ≡ take (want_end - here) (drop (e.pack_offset + (here - start)) body)))
          Failed
          (fetch_run store sha256 here want_end start e run w)
  unfolding fetch_run
  fetch_run-Post e run body here want_end start count w found all_in whole a b c stays =
      let whole_slice =
        length-slice body e.pack_offset count (here - start) (want_end - here) whole
          (omega (arith, a, b, c)) in
      let ends : here + (want_end - here) ≡ want_end = omega (arith, b) in
      let verified =
        verify_covered_chunks-InRun sha256 body start e.pack_offset here (want_end - here)
          ((start, e) ∷ run) a all_in in
      let no_clip : max here start ≡ here = omega (arith, a) in
      rw no_clip (
        Post-bind
          (serves e.pack_sha256 body (e.pack_offset + (here - start)) (want_end - here) w found
            stays)
          (λ r u h.
            rw (h.1, whole_slice, ==_refl (want_end - here), rw ends at verified)
              (returned (h.0, refl)))
          λ x u h. h)
