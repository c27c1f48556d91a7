-- ===== src/Chunk/Build/Faithful.antt =====
-- A built manifest, over the packs that it names, gives the payload back.
use mathlib.Core.List.{append-nil, append_assoc}
use mathlib.Core.Path.{subst₂}
use ducklake_serverless.Base.{
  ℕ, zero, suc, ◌<◌, ◌≡◌, refl, ap, sym, ◌∙◌, Text, Bytes, Option, none, some, Option-cases, List,
  [], ◌∷◌, ◌++◌, arith, length, take, drop, All, Bool, true, false, Bool-cases, inl, inr, ◌==◌,
  if◌then◌else◌, text_eq, text_eq_iff,
}
use ducklake_serverless.Chunk.Manifest.{Manifest, ManifestEntry, index_get}
use ducklake_serverless.Chunk.Build.{
  Build, flush_pack, reusable, add_chunk, add_chunks, base_index_of, build_manifest, empty_build,
}
use ducklake_serverless.Chunk.Build.Walk.{Reads, ReadsAll, Walk, done, Walk-keep}
use ducklake_serverless.Chunk.Build.Packing.{
  IsCollisionFree, assemble, chunks, concat-chunks, assemble-reads, InStore, ReadsAll-Walk,
  flush-Holds, Good, add_novel-Good,
}

module _ (sha256 : Bytes → Text) (pack_at : Text → Option Bytes) where
  -- Every entry of the base is the slice of some chunk.
  abbrev pub IsReadable : List ManifestEntry → Type 0
  IsReadable = All (λ e. (c : Bytes) × Reads sha256 pack_at e c)

  first_match :
      (x e : ManifestEntry) (o : Option ManifestEntry) (t : Bool)
      → o ≡ none
      → elim o [ some later ↦ some later | none ↦ if t then some x else none ] ≡ some e
      → (t ≡ true) × (x ≡ e)
  first_match x e none true n g = (refl, ground (arith, g))
  first_match x e none false n g = absurd (cc g)
  first_match x e (some y) t n g = absurd (cc n)

  index_get-Reads :
      IsCollisionFree sha256
      → (base : List ManifestEntry) (c : Bytes) (e : ManifestEntry) → IsReadable base
      → index_get (sha256 c) base ≡ some e
      → Reads sha256 pack_at e c
  unfolding index_get
  index_get-Reads free [] c e h g = absurd (cc g)
  index_get-Reads free (x ∷ base) c e h g = elim (Option-cases (index_get (sha256 c) base)) [
    | inl missing ↦
        let (same, it) =
          first_match x e (index_get (sha256 c) base) (text_eq x.chunk_sha256 (sha256 c)) missing
            g in
        let (c', r) = h.0 in
        let same_chunk : c' ≡ c =
          free c' c (sym r.hashed ∙ (text_eq_iff x.chunk_sha256 (sha256 c)).0 same) in
        subst₂ (λ y d. Reads sha256 pack_at y d) it same_chunk r
    | inr (later, found) ↦ index_get-Reads free base c e h.1 (ground (arith, found, g))
  ]

  reusable-some :
      (c : Bytes) (e : ManifestEntry) (o : Option ManifestEntry)
      → reusable sha256 c o ≡ some e
      → o ≡ some e
  reusable-some c e none h = absurd (cc h)
  reusable-some c e (some x) h = ground arith

  flush_pack-Walk :
      (b : Build) (cs : List Bytes)
      → Good sha256 pack_at b cs
      → All (InStore sha256 pack_at) (flush_pack sha256 b).packs
      → Walk sha256 pack_at 0 (flush_pack sha256 b).entries [] cs
  unfolding flush_pack
  flush_pack-Walk b cs h = flush-Holds sha256 pack_at b.pending b cs h

  add_chunk-Good :
      (base : List ManifestEntry) (target : ℕ) (c : Bytes) (b : Build) (cs : List Bytes)
      → IsCollisionFree sha256
      → IsReadable base
      → Good sha256 pack_at b cs
      → Good sha256 pack_at (add_chunk sha256 base target c b) (cs ++ c ∷ [])
  unfolding add_chunk
  add_chunk-Good base target c b cs free read h =
      elim (Option-cases (reusable sha256 c (index_get (sha256 c) base))) [
        | inl novel ↦ rw (novel, add_chunk) (add_novel-Good sha256 pack_at target c b cs h)
        | inr (e, reused) ↦
            rw (reused, add_chunk)
              (λ stored.
                Walk-keep sha256 pack_at e c
                  (index_get-Reads free base c e read
                    (reusable-some c e (index_get (sha256 c) base) reused))
                  (h stored))
      ]

  add_chunks-Good :
      (n : ℕ) (base : List ManifestEntry) (size target : ℕ) (rest : Bytes) (b : Build)
      (cs : List Bytes)
      → IsCollisionFree sha256
      → IsReadable base
      → Good sha256 pack_at b cs
      → Good sha256 pack_at (add_chunks sha256 n base size target rest b) (cs ++ chunks n size rest)
  unfolding add_chunks
  add_chunks-Good zero base size target rest b cs free read h = rw append-nil h
  add_chunks-Good (suc n) base size target [] b cs free read h = rw append-nil h
  add_chunks-Good (suc n) base size target (x ∷ rest) b cs free read h =
      rw (← append_assoc cs (take size (x ∷ rest) ∷ []) (chunks n size (drop size (x ∷ rest)))) (
        add_chunks-Good n base size target (drop size (x ∷ rest))
          (add_chunk sha256 base target (take size (x ∷ rest)) b) (cs ++ take size (x ∷ rest) ∷ [])
          free read (add_chunk-Good base target (take size (x ∷ rest)) b cs free read h))

  -- The base has packs for all of its entries.
  abbrev pub BaseReadable : Option Manifest → Type 0
  BaseReadable none = Unit
  BaseReadable (some base) = IsReadable base.entries

  base_index-IsReadable :
      (base : Option Manifest) (size : ℕ)
      → BaseReadable base
      → IsReadable (base_index_of sha256 base size)
  base_index-IsReadable none size h = tt
  base_index-IsReadable (some base) size h = elim (Bool-cases (base.chunk_size == size)) [
    | inl same ↦ rw same h
    | inr other ↦ rw other tt
  ]

  ReadsAll-IsReadable :
      (es : List ManifestEntry) (cs : List Bytes) → ReadsAll sha256 pack_at es cs → IsReadable es
  ReadsAll-IsReadable [] [] r = tt
  ReadsAll-IsReadable [] (c ∷ cs) r = absurd r
  ReadsAll-IsReadable (e ∷ es) [] r = absurd r
  ReadsAll-IsReadable (e ∷ es) (c ∷ cs) (r, rs) = ((c, r), ReadsAll-IsReadable es cs rs)

  module _ (bytes : Bytes) (base : Option Manifest) (size pack_target : ℕ)
      (free : IsCollisionFree sha256) (readable : BaseReadable base)
      (stored : All
        (InStore sha256 pack_at)
        (build_manifest sha256 bytes base size pack_target).1) where
    build_manifest-ReadsAll :
        ReadsAll sha256 pack_at
          (build_manifest sha256 bytes base size pack_target).0.entries
          (chunks (length bytes) size bytes)
    unfolding build_manifest
    build_manifest-ReadsAll =
        let b =
          add_chunks sha256 (length bytes) (base_index_of sha256 base size) size pack_target bytes
            empty_build in
        let good =
          add_chunks-Good (length bytes) (base_index_of sha256 base size) size pack_target bytes
            empty_build [] free (base_index-IsReadable base size readable) (λ stored. done) in
        ReadsAll-Walk sha256 pack_at
          (flush_pack-Walk b (chunks (length bytes) size bytes) good stored) refl

    -- Each entry of a built manifest reads a chunk that hashes to its name.
    pub build_manifest-IsReadable :
        IsReadable (build_manifest sha256 bytes base size pack_target).0.entries
    build_manifest-IsReadable =
        ReadsAll-IsReadable (build_manifest sha256 bytes base size pack_target).0.entries
          (chunks (length bytes) size bytes) build_manifest-ReadsAll

  -- If no two chunks have one hash, the chunk size is positive, the base's entries can be read
  -- from its packs and the novel packs are stored, then the entries of a built manifest put
  -- the payload together that it was built for, whatever was deduplicated.
  pub assemble-build_manifest :
      (bytes : Bytes) (base : Option Manifest) (size pack_target : ℕ)
      → IsCollisionFree sha256
      → 0 < size
      → BaseReadable base
      → All (InStore sha256 pack_at) (build_manifest sha256 bytes base size pack_target).1
      → assemble pack_at (build_manifest sha256 bytes base size pack_target).0.entries ≡ some bytes
  assemble-build_manifest bytes base size target free s h stored =
      assemble-reads sha256 pack_at (build_manifest sha256 bytes base size target).0.entries
        (chunks (length bytes) size bytes)
        (build_manifest-ReadsAll bytes base size target free h stored)
      ∙ ap some (concat-chunks (length bytes) size bytes s (omega arith))
