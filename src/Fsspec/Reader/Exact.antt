-- ===== src/Fsspec/Reader/Exact.antt =====
-- A chunked reader gives the slice of the payload that was asked for.
use mathlib.Core.List.{append_assoc, append-nil}
use ducklake_serverless.Base.{
  ℕ, zero, suc, ◌+◌, ◌-◌, ◌≤◌, ◌<◌, ◌≡◌, ◌⊎◌, inl, inr, refl, ap, sym, ◌∙◌, min, ltb, ltb→lt, leb,
  leb→le, arith, Text, Bytes, Option, some, List, [], ◌∷◌, ◌++◌, Bool-cases, false, length, take,
  drop, length-append, take-add, All,
}
use ducklake_serverless.Errors.{
  Error, external_service, Exec, Post, returned, Post-bind, Post-weaken,
}
use ducklake_serverless.Store.{ObjectStore}
use ducklake_serverless.Chunk.Manifest.{ManifestEntry}
use ducklake_serverless.Chunk.Build.Packing.{assemble}
use ducklake_serverless.Chunk.Reconstruct.Order.{Assembled, assemble-Assembled}
use ducklake_serverless.Fsspec.Reader.{Indexed, starts_from, extend_run, read_run, read_runs}
use ducklake_serverless.Fsspec.Reader.Runs.{HasOwnChunk, Extended, extend_run-Extended}
use ducklake_serverless.Fsspec.Reader.Fetch.{ServesRanges, join_slices, fetch_run-Post}

-- The place is at most the end of the first entry.
abbrev pub Near : ℕ → ℕ → List ManifestEntry → Type 0
Near here off [] = Unit
Near here off (e ∷ es) = here ≤ off + e.length

Near-stop : (stop : ℕ) (here : ℕ) (es : List ManifestEntry) → here ≤ stop → Near here stop es
Near-stop stop here [] h = tt
Near-stop stop here (e ∷ es) h = omega (arith, h)

module _ {W : Type 0} (store : ObjectStore W) (sha256 : Bytes → Text)
    (pack_at : Text → Option Bytes) (Stays : W → Type 0) (Fails : Type 0)
    (serves : ServesRanges store pack_at Stays Fails) where
  abbrev Failed : Error → W → Type 0
  Failed e w = (e ≡ external_service) × Fails

  nothing_left :
      (end here off : ℕ) (out bytes : Bytes)
      → end ≤ here
      → out ≡ out ++ take (end - here) (drop (here - off) bytes)
  nothing_left end here off out bytes h =
      let zero_left : end - here ≡ 0 = omega (arith, h) in rw (zero_left, append-nil) refl

  not_ltb : (a b : ℕ) → ltb a b ≡ false → b ≤ a
  not_ltb a b h = ground arith

  ended : {off here end : ℕ} → (off ≤ here) ⊎ (end ≤ here) → end ≤ off → end ≤ here
  ended (inl a) b = omega (arith, a, b)
  ended (inr a) b = a

  started : {off here end : ℕ} → (off ≤ here) ⊎ (end ≤ here) → here < end → off ≤ here
  started (inl a) b = a
  started (inr a) b = absurd (omega (arith, a, b))

  -- One round: the run and what the rounds behind it give are the slice.
  read_run-Post :
      (next : ℕ → Bytes → Indexed → Exec W Bytes) (end here start : ℕ) (e : ManifestEntry)
      (es : List ManifestEntry) (out bytes : Bytes) (taken : Indexed × Indexed) (w : W)
      → start ≤ here
      → here ≤ start + e.length
      → here < end
      → HasOwnChunk sha256 pack_at e
      → (s : Assembled pack_at e es bytes)
      → (x : Extended sha256 pack_at s.body start e.pack_offset
          (start + e.length)
          (e.pack_offset + e.length)
          es
          s.rest
          taken)
      → Stays w
      → ((out' : Bytes) (u : W)
          → Stays u
          → Post
              (λ r v.
                Stays v
                × (r ≡ out' ++ take (end - min end x.stop) (drop (min end x.stop - x.stop) x.rest)))
              Failed
              (next (min end x.stop) out' (starts_from x.stop x.after) u))
      → Post
          (λ r u. Stays u × (r ≡ out ++ take (end - here) (drop (here - start) bytes)))
          Failed
          (read_run store sha256 next end here out start e taken w)
  read_run-Post next end here start e es out bytes taken w a b c own s x stays follow =
      let count = e.length + x.count in
      let run = take count (drop e.pack_offset s.body) in
      let together = take-add e.length x.count e.pack_offset s.body in
      let whole : length run ≡ count =
        ap length (sym together)
        ∙ length-append (take e.length (drop e.pack_offset s.body))
            (take x.count (drop (e.pack_offset + e.length) s.body))
        ∙ rw (x.whole, s.whole) refl in
      let all_bytes : bytes ≡ run ++ x.rest =
        s.joined
        ∙ rw x.joined (
            sym (
              append_assoc (take e.length (drop e.pack_offset s.body))
                (take x.count (drop (e.pack_offset + e.length) s.body)) x.rest))
        ∙ ap (λ l. l ++ x.rest) together in
      rw (x.ends, x.rest_is)
        (Post-bind
          (fetch_run-Post store sha256 pack_at Stays Fails serves e taken.0 s.body here
            (min end x.stop) start count w s.found
            ((omega arith, refl, own s.body s.found), x.in_run) whole a
            (omega (arith, b, c, x.stop_is)) (omega (arith, x.stop_is)) stays)
          (λ got u h.
            Post-weaken (follow (out ++ got) u h.0)
              (λ r v k. (
                k.0,
                k.1
                    ∙ append_assoc out got (behind x)
                    ∙ ap (λ l. out ++ l)
                        (ap (λ l. l ++ behind x) h.1
                          ∙ join_slices s.body x.rest e.pack_offset start here end x.stop count a
                              (omega (arith, b, x.stop_is)) (omega (arith, c))
                              (omega (arith, x.stop_is)) whole
                          ∙ ap (λ l. take (end - here) (drop (here - start) l)) (sym all_bytes)),
              ))
              λ y v k. k)
          λ y u h. h)
    where
      behind :
          Extended sha256 pack_at s.body start e.pack_offset
            (start + e.length)
            (e.pack_offset + e.length)
            es
            s.rest
            taken
          → Bytes
      behind x = take (end - min end x.stop) (drop (min end x.stop - x.stop) x.rest)

  length_behind :
      (e : ManifestEntry) (es : List ManifestEntry) (start : ℕ) (bytes : Bytes)
      (taken : Indexed × Indexed) (s : Assembled pack_at e es bytes)
      (x : Extended sha256 pack_at s.body start e.pack_offset
        (start + e.length)
        (e.pack_offset + e.length)
        es
        s.rest
        taken)
      → start + length bytes ≡ x.stop + length x.rest
  length_behind e es start bytes taken s x = omega (
    arith,
    s.whole,
    x.whole,
    x.stop_is,
    ap length s.joined,
    ap length x.joined,
    length-append (take e.length (drop e.pack_offset s.body)) s.rest,
    length-append (take x.count (drop (e.pack_offset + e.length) s.body)) x.rest,
  )

  at_stop : (end stop : ℕ) → (stop ≤ min end stop) ⊎ (end ≤ min end stop)
  at_stop end stop = elim (Bool-cases (leb stop end)) [
    | inl h ↦ inl (omega (arith, leb→le stop end h))
    | inr h ↦ inr (ground (arith, h))
  ]

  pub read_runs-Post :
      (n end here off : ℕ) (es : List ManifestEntry) (out bytes : Bytes) (w : W)
      → length es ≤ n
      → All (HasOwnChunk sha256 pack_at) es
      → assemble pack_at es ≡ some bytes
      → (off ≤ here) ⊎ (end ≤ here)
      → Near here off es
      → end ≤ off + length bytes
      → Stays w
      → Post
          (λ r u. Stays u × (r ≡ out ++ take (end - here) (drop (here - off) bytes)))
          Failed
          (read_runs store sha256 n end here out (starts_from off es) w)
  unfolding read_runs starts_from
  read_runs-Post n end here off [] out bytes w fuel hashed a before near within stays =
      let empty : bytes ≡ [] = unfold assemble in cc a in
      let past : end ≤ here = ended before (omega (arith, within, ap length empty)) in
      let no : ltb here end ≡ false = ground (arith, past) in
      rw no (returned (stays, nothing_left end here off out bytes past))
  read_runs-Post zero end here off (e ∷ es) out bytes w fuel hashed a before near within stays =
      absurd (omega (arith, fuel))
  read_runs-Post (suc n) end here off (e ∷ es) out bytes w fuel hashed a before near within stays =
      elim (Bool-cases (ltb here end)) [
        | inr past ↦
            rw past (returned (stays, nothing_left end here off out bytes (not_ltb here end past)))
        | inl more ↦
            let s = assemble-Assembled pack_at e es bytes a in
            let x =
              extend_run-Extended sha256 pack_at end e.pack_sha256 s.body s.found off e.pack_offset
                es (off + e.length) (e.pack_offset + e.length) s.rest (omega arith) (omega arith)
                hashed.1 s.after in
            rw more (
              read_run-Post (λ here' out' rest u. read_runs store sha256 n end here' out' rest u)
                end here off e es out bytes
                (extend_run end e.pack_sha256 (e.pack_offset + e.length)
                  (starts_from (off + e.length) es))
                w (started before (ltb→lt here end more)) near (ltb→lt here end more) hashed.0 s x
                stays
                λ out' u stays'.
                  read_runs-Post n end (min end x.stop) x.stop x.after out' x.rest u
                    (omega (arith, fuel, x.shorter)) x.hashed x.assembled (at_stop end x.stop)
                    (Near-stop x.stop (min end x.stop) x.after (omega arith))
                    (omega (arith, within, length_behind e es off bytes _ s x)) stays')
      ]
