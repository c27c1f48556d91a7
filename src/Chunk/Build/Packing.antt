-- ===== src/Chunk/Build/Packing.antt =====
-- What a reader puts together of packs, and what the packing of chunks keeps of it.
use ducklake_serverless.Base.{
  ℕ, zero, suc, ◌+◌, ◌≤◌, ◌<◌, ◌≡◌, refl, ap, ◌∙◌, Text, Bytes, Option, none, some, List, [], ◌∷◌,
  ◌++◌, arith, length, take, drop, length-drop, take-append-drop, All, Bool-cases, inl, inr, ◌&&◌,
  ltb, ◌==◌, if◌then◌else◌,
}
use ducklake_serverless.Chunk.Manifest.{ManifestEntry}
use ducklake_serverless.Chunk.Build.{
  Pending, Pack, Build, join, flush, flush_pack, await_pack, waits, add_novel,
}
use ducklake_serverless.Chunk.Build.Walk.{
  ReadsAll, Walk, done, kept, waiting, Walk-wait, fill-reads,
}

-- No two chunks have one hash.
abbrev pub IsCollisionFree : (Bytes → Text) → Type 0
IsCollisionFree sha256 = (a b : Bytes) → sha256 a ≡ sha256 b → a ≡ b

-- What a reader of the packs puts together: each entry's slice, which must be whole.
unfoldable pub assemble : (Text → Option Bytes) → List ManifestEntry → Option Bytes
assemble pack_at [] = some []
assemble pack_at (e ∷ es) = elim (pack_at e.pack_sha256) [
  | none ↦ none
  | some body ↦
      let piece = take e.length (drop e.pack_offset body) in
      let rest = assemble pack_at es in
      if length piece == e.length
      then (elim rest [ none ↦ none | some r ↦ some (piece ++ r) ])
      else none
]

abbrev pub concat : List Bytes → Bytes
concat [] = []
concat (c ∷ cs) = c ++ concat cs

-- The payload cut at every `size` bytes.
abbrev pub chunks : ℕ → ℕ → Bytes → List Bytes
chunks zero size rest = []
chunks (suc n) size [] = []
chunks (suc n) size (x ∷ rest) = take size (x ∷ rest) ∷ chunks n size (drop size (x ∷ rest))

pub concat-chunks :
    (n size : ℕ) (rest : Bytes) → 0 < size → length rest ≤ n → concat (chunks n size rest) ≡ rest
concat-chunks zero size [] s h = refl
concat-chunks zero size (x ∷ rest) s h = absurd (omega arith)
concat-chunks (suc n) size [] s h = refl
concat-chunks (suc n) size (x ∷ rest) s h =
    ap (λ l. take size (x ∷ rest) ++ l)
      (concat-chunks n size (drop size (x ∷ rest)) s (omega (arith, length-drop size (x ∷ rest))))
    ∙ take-append-drop size (x ∷ rest)

module _ (sha256 : Bytes → Text) (pack_at : Text → Option Bytes) where
  pub assemble-reads :
      (es : List ManifestEntry) (cs : List Bytes)
      → ReadsAll sha256 pack_at es cs
      → assemble pack_at es ≡ some (concat cs)
  unfolding assemble
  assemble-reads [] [] r = refl
  assemble-reads [] (c ∷ cs) r = absurd r
  assemble-reads (e ∷ es) [] r = absurd r
  assemble-reads (e ∷ es) (c ∷ cs) (r, rs) =
      ground (arith, r.found, r.slice, r.whole, assemble-reads es cs rs)

  abbrev pub InStore : Pack → Type 0
  InStore p = pack_at p.pack_sha256 ≡ some p.pack_bytes

  Walk-ReadsAll :
      (k : ℕ) (es : List ManifestEntry) (cs : List Bytes)
      → ReadsAll sha256 pack_at es cs
      → Walk sha256 pack_at k es [] cs
  Walk-ReadsAll k [] [] r = done
  Walk-ReadsAll k [] (c ∷ cs) r = absurd r
  Walk-ReadsAll k (e ∷ es) [] r = absurd r
  Walk-ReadsAll k (e ∷ es) (c ∷ cs) r = kept r.0 (Walk-ReadsAll (suc k) es cs r.1)

  pub ReadsAll-Walk :
      {k : ℕ} {es : List ManifestEntry} {ps : List Pending} {cs : List Bytes}
      → Walk sha256 pack_at k es ps cs
      → ps ≡ []
      → ReadsAll sha256 pack_at es cs
  ReadsAll-Walk done h = tt
  ReadsAll-Walk (kept r w) h = (r, ReadsAll-Walk w h)
  ReadsAll-Walk (waiting a b c w) h = absurd (cc h)

  All-append_both : (P : Pack → Type 0) (xs ys : List Pack) → All P (xs ++ ys) → All P xs × All P ys
  All-append_both P [] ys h = (tt, h)
  All-append_both P (x ∷ xs) ys h = let (l, r) = All-append_both P xs ys h.1 in ((h.0, l), r)

  -- If the packs so far are stored, the entries are as the walk says.
  abbrev pub Holds : List ManifestEntry → List Pack → List Pending → List Bytes → Type 0
  Holds es packs ps cs = All InStore packs → Walk sha256 pack_at 0 es ps cs

  pub flush-Holds :
      (ps : List Pending) (b : Build) (cs : List Bytes)
      → Holds b.entries b.packs ps cs
      → Holds (flush sha256 ps b).entries (flush sha256 ps b).packs [] cs
  unfolding flush
  flush-Holds [] b cs h stored = h stored
  flush-Holds (p ∷ ps) b cs h stored =
      let (before, new) = All-append_both InStore b.packs (_ ∷ []) stored in
      let (es', eq, all) =
        fill-reads sha256 pack_at (sha256 (join (p ∷ ps))) [] [] (h before) refl new.0 in
      rw eq (Walk-ReadsAll 0 es' cs all)

  abbrev pub Good : Build → List Bytes → Type 0
  Good b cs = Holds b.entries b.packs b.pending cs

  flush_pack-Good : (b : Build) (cs : List Bytes) → Good b cs → Good (flush_pack sha256 b) cs
  unfolding flush_pack
  flush_pack-Good b cs h = flushed b.pending b cs refl h
    where
      flushed :
          (ps : List Pending) (b : Build) (cs : List Bytes)
          → ps ≡ b.pending
          → Good b cs
          → Good (flush sha256 ps b) cs
      flushed [] b cs e h = h
      flushed (p ∷ ps) b cs e h = flush-Holds (p ∷ ps) b cs (rw e h)

  await_pack-Good :
      (c : Bytes) (b : Build) (cs : List Bytes)
      → Good b cs
      → Good (await_pack sha256 c b) (cs ++ c ∷ [])
  unfolding await_pack
  await_pack-Good c b cs h stored =
      Walk-wait sha256 pack_at _
        (record { chunk_sha256 = sha256 c; chunk = c; entry_at = length b.entries }) (omega arith)
        refl (h stored)

  pub add_novel-Good :
      (target : ℕ) (c : Bytes) (b : Build) (cs : List Bytes)
      → Good b cs
      → Good (add_novel sha256 target c b) (cs ++ c ∷ [])
  unfolding add_novel
  add_novel-Good target c b cs h =
      elim (Bool-cases (ltb target (b.pending_bytes + length c) && waits sha256 b.pending)) [
        | inl full ↦ rw full (await_pack-Good c (flush_pack sha256 b) cs (flush_pack-Good b cs h))
        | inr room ↦ rw room (await_pack-Good c b cs h)
      ]
