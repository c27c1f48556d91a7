-- ===== src/Tests/Decisions.antt =====
-- Rebases, sweeps, chunk sizes and a manifest that reuses a chunk of its base.
use ducklake_serverless.Base.{
  zero, suc, inr, text_eq, take, ap, ℕ, ◌≡◌, ◌≤◌, ◌<◌, ◌*◌, ◌⊎◌, ◌↔◌, inl, refl, arith, Text, text,
  Bytes, some, List, [], ◌∷◌, All, In, length,
}
use ducklake_serverless.Models.Changeset.{Changeset, blind_append, append_only_replay, replay}
use ducklake_serverless.Models.RootDoc.{chunked}
use ducklake_serverless.Rebase.{decide_rebase}
use ducklake_serverless.Rebase.Decision.{MayReplay, decide_rebase-eq-replay}
use ducklake_serverless.Store.{ObjectMeta}
use ducklake_serverless.Chunk.Manifest.{
  Manifest, ManifestEntry, max_entries, format_pack_key, pack_keys, index_get,
}
use ducklake_serverless.Chunk.Size.{choose_chunk_size, choose_chunk_size_fits}
use ducklake_serverless.Chunk.Build.{
  build_manifest, flush_pack, flush, join, add_chunks, add_chunk, add_novel, await_pack,
}
use ducklake_serverless.Chunk.Build.Walk.{Reads}
use ducklake_serverless.Chunk.Build.Faithful.{IsReadable, assemble-build_manifest}
use ducklake_serverless.Chunk.Build.Packing.{IsCollisionFree, InStore, assemble}
use ducklake_serverless.Gc.Decide.{
  ResolvedPayload, committed_chunked, SweepActions, sweep_actions, refuse_sweep, ColdSince,
  sweep_items, marked_of, committed_refs_of, member, put_meta, trips_breaker, fate, cold_get,
  is_young, decide_pack_sweep, default_max_delete_fraction, listed_from,
}
use ducklake_serverless.Gc.Decide.Plan.{
  decide_pack_sweep_deletes, decide_pack_sweep-Protects, decide_pack_sweep_refuses,
  decide_pack_sweep_under_cap,
}
use ducklake_serverless.Gc.Decide.Safety.{HasDoomed}
use ducklake_serverless.Tests.Keys.{doc_with}

abbrev one_insert : Changeset
one_insert = record {
  statements =
      record { sql = text "INSERT INTO t VALUES (?)"; params = []; statement_class = blind_append }
      ∷ [];
}

decide_rebase-eq-replay_example :
    (decide_rebase one_insert append_only_replay 0 5 ≡ replay)
    ↔ MayReplay one_insert append_only_replay 0 5
decide_rebase-eq-replay_example = decide_rebase-eq-replay one_insert append_only_replay 0 5

abbrev entry : Text → ℕ → ManifestEntry
entry pack n = record { chunk_sha256 = pack; pack_sha256 = pack; pack_offset = 0; length = n }

abbrev pub base : Manifest
base = record {
  chunk_size = 4;
  total_size = 6;
  file_sha256 = [];
  entries = entry (1 ∷ 2 ∷ 3 ∷ 4 ∷ []) 4 ∷ entry (5 ∷ 6 ∷ []) 2 ∷ [];
}

choose_chunk_size_fits_example :
    (600_000 ≤ choose_chunk_size 600_000 (some base) * max_entries)
    × (((600_000 ≤ 4 * max_entries) × (choose_chunk_size 600_000 (some base) ≡ 4))
        ⊎ ((4 * max_entries < 600_000)
            × (choose_chunk_size 600_000 (some base) * max_entries < 2 * 600_000)))
choose_chunk_size_fits_example = choose_chunk_size_fits 600_000 (some base) (omega arith)

-- Bytes are their own hash here, and a pack's name is what it holds.
abbrev pub own : Bytes → Text
own b = b

pub own-IsCollisionFree : IsCollisionFree own
own-IsCollisionFree a b e = e

-- The second chunk is the base's first one, the other two are novel.
abbrev pub payload : Bytes
payload = 9 ∷ 9 ∷ 9 ∷ 9 ∷ 1 ∷ 2 ∷ 3 ∷ 4 ∷ 7 ∷ []

take-length : (c : Bytes) → take (length c) c ≡ c
take-length [] = refl
take-length (x ∷ c) = ap (λ l. x ∷ l) (take-length c)

pub base-IsReadable : IsReadable own some base.entries
base-IsReadable = (reads (1 ∷ 2 ∷ 3 ∷ 4 ∷ []), (reads (5 ∷ 6 ∷ []), tt))
  where
    reads : (c : Bytes) → (x : Bytes) × Reads own some (entry c (length c)) x
    reads c =
        (c, record { body = c; found = refl; slice = take-length c; whole = refl; hashed = refl })

pub stored : All (InStore own some) (build_manifest own payload (some base) 4 4).1
unfolding build_manifest flush_pack add_chunks add_chunk add_novel await_pack index_get flush join
    text_eq
stored = (refl, (refl, tt))

assemble-build_manifest_example :
    assemble some (build_manifest own payload (some base) 4 4).0.entries ≡ some payload
assemble-build_manifest_example =
    assemble-build_manifest own some payload (some base) 4 4 own-IsCollisionFree (omega arith)
      base-IsReadable stored

abbrev meta : Text → ObjectMeta
meta key = record { key = key; size = 4; last_modified = some 20 }

abbrev fillers : ℕ → List ObjectMeta
fillers zero = []
fillers (suc n) = meta (n ∷ []) ∷ fillers n

-- The two packs of `base`, and nine that nothing names.
abbrev metas : List ObjectMeta
metas =
    meta (format_pack_key (1 ∷ 2 ∷ 3 ∷ 4 ∷ [])) ∷ meta (format_pack_key (5 ∷ 6 ∷ [])) ∷ fillers 9

abbrev resolved : List ResolvedPayload
resolved = committed_chunked (doc_with chunked 1) base ∷ []

-- Two of the nine are in the ledger; one of those has been for long enough.
abbrev ledger : ColdSince
ledger = (3 ∷ [], 30) ∷ (4 ∷ [], 995) ∷ []

abbrev swept : SweepActions
swept = sweep_items (marked_of resolved) ledger 1000 10 metas

swept-plan :
    decide_pack_sweep resolved metas ledger 1000 10 default_max_delete_fraction
    ≡ sweep_actions swept
unfolding decide_pack_sweep committed_refs_of pack_keys member listed_from put_meta text_eq
    format_pack_key trips_breaker sweep_items fate marked_of cold_get is_young
swept-plan = refl

decide_pack_sweep_deletes_example :
    In (3 ∷ []) swept.delete
    ↔ HasDoomed (marked_of resolved) ledger 1000 10 (listed_from [] metas) (3 ∷ [])
decide_pack_sweep_deletes_example =
    decide_pack_sweep_deletes resolved metas ledger 1000 10 default_max_delete_fraction swept
      (3 ∷ []) swept-plan

decide_pack_sweep-Protects_example : ¬ In (format_pack_key (5 ∷ 6 ∷ [])) swept.delete
decide_pack_sweep-Protects_example =
    decide_pack_sweep-Protects resolved metas ledger 1000 10 default_max_delete_fraction swept
      (committed_chunked (doc_with chunked 1) base) (format_pack_key (5 ∷ 6 ∷ [])) swept-plan
      (inl refl) (unfold pack_keys in inr (inl refl))

decide_pack_sweep_refuses_example :
    decide_pack_sweep resolved (fillers 9) ledger 1000 10 default_max_delete_fraction ≡ refuse_sweep
decide_pack_sweep_refuses_example =
    decide_pack_sweep_refuses resolved (fillers 9) ledger 1000 10 default_max_delete_fraction
      (doc_with chunked 1) base (format_pack_key (5 ∷ 6 ∷ [])) (inl refl)
      (unfold pack_keys in inr (inl refl))
      (unfold member listed_from put_meta text_eq format_pack_key in refl)

decide_pack_sweep_under_cap_example : 5 * length swept.delete ≤ 2 * length (listed_from [] metas)
decide_pack_sweep_under_cap_example =
    decide_pack_sweep_under_cap resolved metas ledger 1000 10 default_max_delete_fraction swept
      swept-plan (unfold listed_from put_meta text_eq format_pack_key in omega arith)
