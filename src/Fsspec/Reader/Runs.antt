-- ===== src/Fsspec/Reader/Runs.antt =====
-- A run of entries that stand behind each other in one pack: its bytes, and the hashes of its chunks.
use mathlib.Core.List.{append_assoc}
use native.Mathlib.Nat.{add-zero}
use ducklake_serverless.Base.{
  ℕ, ◌+◌, ◌-◌, ◌≤◌, ◌≡◌, inl, inr, refl, ap, sym, ◌∙◌, arith, Text, Bytes, text_eq, text_eq_iff,
  text_eq_refl, Option, some, List, [], ◌∷◌, ◌++◌, Bool-cases, &&-eq-true, ◌&&◌, ltb, leb, leb→le,
  ◌==◌, ==_iff, length, take, drop, length-append, slice-slice, take-add, All,
}
use ducklake_serverless.Errors.{ok}
use ducklake_serverless.Chunk.Manifest.{ManifestEntry}
use ducklake_serverless.Chunk.Build.Packing.{assemble}
use ducklake_serverless.Chunk.Reconstruct.Order.{Assembled, assemble-Assembled}
use ducklake_serverless.Fsspec.Reader.{
  Indexed, starts_from, extend_run, run_file_end, verify_covered_chunks,
}

module _ (sha256 : Bytes → Text) where
  -- The chunk that an entry reads from its pack hashes to the name in the entry.
  abbrev pub HasOwnChunk : (Text → Option Bytes) → ManifestEntry → Type 0
  HasOwnChunk pack_at e =
      (body : Bytes)
      → pack_at e.pack_sha256 ≡ some body
      → sha256 (take e.length (drop e.pack_offset body)) ≡ e.chunk_sha256

  -- An entry of a run that begins at `first` in the file and at `origin` in the pack.
  abbrev pub InRun : Bytes → ℕ → ℕ → ℕ × ManifestEntry → Type 0
  InRun body first origin (start, e) =
      (first ≤ start)
      × (e.pack_offset + first ≡ origin + start)
      × (sha256 (take e.length (drop e.pack_offset body)) ≡ e.chunk_sha256)

  piece-eq :
      (body : Bytes) (first origin got_start count start : ℕ) (e : ManifestEntry)
      → first ≤ got_start
      → got_start ≤ start
      → start + e.length ≤ got_start + count
      → e.pack_offset + first ≡ origin + start
      → take e.length
          (drop (start - got_start) (take count (drop (origin + (got_start - first)) body)))
        ≡ take e.length (drop e.pack_offset body)
  piece-eq body first origin got_start count start e h a b eq =
      slice-slice e.length (start - got_start) count (origin + (got_start - first)) body
        (omega (arith, a, b))
      ∙ ap (λ o. take e.length (drop o body))
          (offset first origin got_start start e.pack_offset h a eq)
    where
      offset :
          (first origin got_start start o : ℕ)
          → first ≤ got_start
          → got_start ≤ start
          → o + first ≡ origin + start
          → origin + (got_start - first) + (start - got_start) ≡ o
      offset first origin got_start start o h a eq = omega (arith, h, a, eq)

  -- The bytes that a pack has at the place of a run pass the check of the chunks.
  pub verify_covered_chunks-InRun :
      (body : Bytes) (first origin got_start count : ℕ) (run : Indexed)
      → first ≤ got_start
      → All (InRun body first origin) run
      → verify_covered_chunks sha256 got_start
          (got_start + count)
          (take count (drop (origin + (got_start - first)) body))
          run
        ≡ ok tt
  unfolding verify_covered_chunks
  verify_covered_chunks-InRun body first origin got_start count [] h all_in = refl
  verify_covered_chunks-InRun body first origin got_start count ((start, e) ∷ run) h (here, rest) =
      let later = verify_covered_chunks-InRun body first origin got_start count run h rest in
      elim (Bool-cases (leb got_start start && leb (start + e.length) (got_start + count))) [
        | inr edge ↦ rw edge later
        | inl covered ↦
            let (a, b) = &&-eq-true _ _ covered in
            let same =
              piece-eq body first origin got_start count start e h (leb→le _ _ a) (leb→le _ _ b)
                here.1 in
            rw (covered, same, here.2, text_eq_refl e.chunk_sha256) later
      ]

-- What `extend_run` has taken: the run ends at `stop` in the file.
pub record Extended (sha256 : Bytes → Text) (pack_at : Text → Option Bytes) (body : Bytes)
    (first origin off offset : ℕ) (es : List ManifestEntry) (bytes : Bytes)
    (taken : Indexed × Indexed) : Type 0 where
  pub count : ℕ
  pub stop : ℕ
  pub stop_is : stop ≡ off + count
  pub after : List ManifestEntry
  pub rest_is : taken.1 ≡ starts_from stop after
  pub ends : run_file_end off taken.0 ≡ stop
  pub in_run : All (InRun sha256 body first origin) taken.0
  pub rest : Bytes
  pub joined : bytes ≡ take count (drop offset body) ++ rest
  pub whole : length (take count (drop offset body)) ≡ count
  pub assembled : assemble pack_at after ≡ some rest
  pub hashed : All (HasOwnChunk sha256 pack_at) after
  pub shorter : length after ≤ length es

module _ (sha256 : Bytes → Text) (pack_at : Text → Option Bytes) (end : ℕ) (sha : Text)
    (body : Bytes) (found : pack_at sha ≡ some body) (first origin : ℕ) where
  abbrev Extends : ℕ → ℕ → List ManifestEntry → Bytes → Indexed × Indexed → Type 0
  Extends off offset es bytes taken =
      Extended sha256 pack_at body first origin off offset es bytes taken

  -- No entry is taken.
  none_taken :
      (es : List ManifestEntry) (off offset : ℕ) (bytes : Bytes)
      → assemble pack_at es ≡ some bytes
      → All (HasOwnChunk sha256 pack_at) es
      → Extends off offset es bytes ([], starts_from off es)
  none_taken es off offset bytes a h = record {
    count = 0;
    stop = off;
    stop_is = sym (add-zero off);
    after = es;
    rest_is = refl;
    ends = unfold run_file_end in refl;
    in_run = tt;
    rest = bytes;
    joined = refl;
    whole = refl;
    assembled = a;
    hashed = h;
    shorter = omega arith;
  }

  -- An entry whose slice of the pack begins at `offset` is taken before what follows it.
  one_more :
      (e : ManifestEntry) (es : List ManifestEntry) (off offset : ℕ) (bytes : Bytes)
      → first ≤ off
      → offset + first ≡ origin + off
      → e.pack_sha256 ≡ sha
      → e.pack_offset ≡ offset
      → All (HasOwnChunk sha256 pack_at) (e ∷ es)
      → Assembled pack_at e es bytes
      → {taken : Indexed × Indexed}
      → ((rest : Bytes)
          → assemble pack_at es ≡ some rest
          → Extends (off + e.length) (offset + e.length) es rest taken)
      → Extends off offset (e ∷ es) bytes ((off, e) ∷ taken.0, taken.1)
  one_more e es off offset bytes le at_offset same_pack same_offset h s {taken} follow =
      let x = follow s.rest s.after in
      let same_body : s.body ≡ body = cc (s.found, found, same_pack) in
      let slice : take e.length (drop e.pack_offset s.body) ≡ take e.length (drop offset body) =
        rw (same_offset, same_body) refl in
      let together = take-add e.length x.count offset body in
      record {
        count = e.length + x.count;
        stop = x.stop;
        stop_is = omega (arith, x.stop_is);
        after = x.after;
        rest_is = x.rest_is;
        ends = unfold run_file_end in x.ends;
        in_run = ((le, rw same_offset at_offset, h.0 body (rw same_pack found)), x.in_run);
        rest = x.rest;
        joined =
            s.joined
            ∙ rw (slice, x.joined)
                (sym (
                  append_assoc (take e.length (drop offset body))
                    (take x.count (drop (offset + e.length) body)) x.rest))
            ∙ ap (λ l. l ++ x.rest) together;
        whole =
            ap length (sym together)
            ∙ length-append (take e.length (drop offset body))
                (take x.count (drop (offset + e.length) body))
            ∙ rw (x.whole, sym (ap length slice) ∙ s.whole) refl;
        assembled = x.assembled;
        hashed = x.hashed;
        shorter = omega (arith, x.shorter);
      }

  pub extend_run-Extended :
      (es : List ManifestEntry) (off offset : ℕ) (bytes : Bytes)
      → first ≤ off
      → offset + first ≡ origin + off
      → All (HasOwnChunk sha256 pack_at) es
      → assemble pack_at es ≡ some bytes
      → Extends off offset es bytes (extend_run end sha offset (starts_from off es))
  unfolding extend_run starts_from
  extend_run-Extended [] off offset bytes le at_offset h a = none_taken [] off offset bytes a h
  extend_run-Extended (e ∷ es) off offset bytes le at_offset h a =
      elim (Bool-cases (ltb off end && (text_eq e.pack_sha256 sha && (e.pack_offset == offset)))) [
        | inr stops ↦ rw stops (none_taken (e ∷ es) off offset bytes a h)
        | inl extends ↦
            let (_, more) =
              &&-eq-true (ltb off end) (text_eq e.pack_sha256 sha && (e.pack_offset == offset))
                extends in
            let (same, next) =
              &&-eq-true (text_eq e.pack_sha256 sha) (e.pack_offset == offset) more in
            rw extends (
              one_more e es off offset bytes le at_offset ((text_eq_iff e.pack_sha256 sha).0 same)
                ((==_iff e.pack_offset offset).0 next) h (assemble-Assembled pack_at e es bytes a)
                λ rest after.
                  extend_run-Extended es (off + e.length) (offset + e.length) rest
                    (omega (arith, le)) (omega (arith, at_offset)) h.1 after)
      ]
