-- ===== src/Chunk/Build/Walk.antt =====
-- The entries during a build: each reads its chunk from a pack, or its chunk waits for one.
use mathlib.Core.List.{append_assoc}
use ducklake_serverless.Base.{
  ℕ, suc, ◌+◌, ◌≡◌, refl, ap, ◌∙◌, Text, Bytes, Option, some, List, [], ◌∷◌, ◌++◌, arith, length,
  take, drop, length-append, take-append_left, drop-append_left,
}
use ducklake_serverless.Chunk.Manifest.{ManifestEntry}
use ducklake_serverless.Chunk.Build.{Pending, join, set_entry, fill}

module _ (sha256 : Bytes → Text) (pack_at : Text → Option Bytes) where
  -- The entry's slice of its pack is the chunk.
  pub record Reads (e : ManifestEntry) (c : Bytes) : Type 0 where
    pub body : Bytes
    pub found : pack_at e.pack_sha256 ≡ some body
    pub slice : take e.length (drop e.pack_offset body) ≡ c
    pub whole : e.length ≡ length c
    pub hashed : e.chunk_sha256 ≡ sha256 c

  abbrev pub ReadsAll : List ManifestEntry → List Bytes → Type 0
  ReadsAll [] [] = Unit
  ReadsAll [] (c ∷ cs) = ⊥
  ReadsAll (e ∷ es) [] = ⊥
  ReadsAll (e ∷ es) (c ∷ cs) = Reads e c × ReadsAll es cs

  -- The entries from the `k`-th on, what of them is pending, and their chunks.
  pub data Walk : ℕ → List ManifestEntry → List Pending → List Bytes → Type 0 where
    done : {k : ℕ} → Walk k [] [] []
    kept :
        {k : ℕ} {e : ManifestEntry} {es : List ManifestEntry} {ps : List Pending} {c : Bytes}
        {cs : List Bytes}
        → Reads e c
        → Walk (suc k) es ps cs
        → Walk k (e ∷ es) ps (c ∷ cs)
    waiting :
        {k : ℕ} {e : ManifestEntry} {es : List ManifestEntry} {p : Pending} {ps : List Pending}
        {c : Bytes} {cs : List Bytes}
        → p.entry_at ≡ k
        → p.chunk ≡ c
        → p.chunk_sha256 ≡ sha256 c
        → Walk (suc k) es ps cs
        → Walk k (e ∷ es) (p ∷ ps) (c ∷ cs)

  pub Walk-keep :
      {k : ℕ} {es : List ManifestEntry} {ps : List Pending} {cs : List Bytes} (e : ManifestEntry)
      (c : Bytes)
      → Reads e c
      → Walk k es ps cs
      → Walk k (es ++ e ∷ []) ps (cs ++ c ∷ [])
  Walk-keep e c r done = kept r done
  Walk-keep e c r (kept r' w) = kept r' (Walk-keep e c r w)
  Walk-keep e c r (waiting a b h w) = waiting a b h (Walk-keep e c r w)

  pub Walk-wait :
      {k : ℕ} {es : List ManifestEntry} {ps : List Pending} {cs : List Bytes} (e : ManifestEntry)
      (p : Pending)
      → p.entry_at ≡ k + length es
      → p.chunk_sha256 ≡ sha256 p.chunk
      → Walk k es ps cs
      → Walk k (es ++ e ∷ []) (ps ++ p ∷ []) (cs ++ p.chunk ∷ [])
  Walk-wait e p a h done = waiting (omega arith) refl h done
  Walk-wait e p a h (kept r w) = kept r (Walk-wait e p (omega arith) h w)
  Walk-wait e p a h (waiting b d g w) = waiting b d g (Walk-wait e p (omega arith) h w)

  set_entry-append :
      (pre es : List ManifestEntry) (e v : ManifestEntry)
      → set_entry (pre ++ e ∷ es) (length pre) v ≡ pre ++ v ∷ es
  unfolding set_entry
  set_entry-append [] es e v = refl
  set_entry-append (x ∷ pre) es e v = ap (λ l. x ∷ l) (set_entry-append pre es e v)

  -- A chunk stands in a pack behind what was joined before it.
  slice_join :
      (left c right : Bytes) → take (length c) (drop (length left) (left ++ (c ++ right))) ≡ c
  slice_join left c right = rw (drop-append_left left (c ++ right)) (take-append_left c right)

  -- Filling gives every entry from `pre` on its slice, and leaves `pre` alone.
  abbrev Filled :
      Text → ℕ → List Pending → List ManifestEntry → List ManifestEntry → List Bytes → Type 0
  Filled sha offset ps pre es cs =
      (es' : List ManifestEntry) × (fill sha offset ps (pre ++ es) ≡ pre ++ es') × ReadsAll es' cs

  snoc_step :
      (k : ℕ) (pre : List ManifestEntry) (e : ManifestEntry)
      → k ≡ length pre
      → suc k ≡ length (pre ++ e ∷ [])
  snoc_step k pre e a = omega (arith, length-append pre (e ∷ []))

  fill_step :
      (sha : Text) (offset : ℕ) (p : Pending) (ps : List Pending) (pre es es' : List ManifestEntry)
      (e v : ManifestEntry)
      → p.entry_at ≡ length pre
      → v ≡ record {
        chunk_sha256 = p.chunk_sha256;
        pack_sha256 = sha;
        pack_offset = offset;
        length = length p.chunk;
      }
      → fill sha (offset + length p.chunk) ps ((pre ++ v ∷ []) ++ es) ≡ (pre ++ v ∷ []) ++ es'
      → fill sha offset (p ∷ ps) (pre ++ e ∷ es) ≡ pre ++ v ∷ es'
  unfolding fill
  fill_step sha offset p ps pre es es' e v a n h =
      rw (a, ← n, set_entry-append pre es e v, ← append_assoc pre (v ∷ []) es)
        (h ∙ append_assoc pre (v ∷ []) es')

  pub fill-reads :
      {k : ℕ} {es : List ManifestEntry} {ps : List Pending} {cs : List Bytes} (sha : Text)
      (left : Bytes) (pre : List ManifestEntry)
      → Walk k es ps cs
      → k ≡ length pre
      → pack_at sha ≡ some (left ++ join ps)
      → Filled sha (length left) ps pre es cs
  unfolding join
  fill-reads sha left pre done a f = ([], unfold fill in refl, tt)
  fill-reads {k} sha left pre (kept {e = e} {es = es} {ps = ps} r w) a f =
      let (es', eq, all) = fill-reads sha left (pre ++ e ∷ []) w (snoc_step k pre e a) f in
      (e ∷ es', rw (← append_assoc pre (e ∷ []) es) (eq ∙ append_assoc pre (e ∷ []) es'), (r, all))
  fill-reads {k} sha left pre (waiting {e = e} {es = es} {p = p} {ps = ps} {c = c} b d g w) a f =
      let v : ManifestEntry = record {
        chunk_sha256 = p.chunk_sha256;
        pack_sha256 = sha;
        pack_offset = length left;
        length = length p.chunk;
      } in
      let (es', eq, all) =
        fill-reads sha (left ++ p.chunk) (pre ++ v ∷ []) w (snoc_step k pre v a)
          (rw append_assoc f) in
      (
        v ∷ es',
        fill_step sha (length left) p ps pre es es' e v (b ∙ a) refl
            (rw (length-append left p.chunk) at eq),
        (
          record {
            body = left ++ (p.chunk ++ join ps);
            found = f;
            slice = slice_join left p.chunk (join ps) ∙ d;
            whole = ap length d;
            hashed = g;
          },
          all,
        ),
      )
