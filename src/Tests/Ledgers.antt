-- ===== src/Tests/Ledgers.antt =====
-- The ledger in memory, written by a rival between a cycle's read and its write.
use ducklake_serverless.Base.{ℕ, ◌≡◌, ◌⊎◌, inl, refl, Text, text, text_eq, some, [], ◌∷◌}
use ducklake_serverless.Errors.{ok, external_service, Post, raised}
use ducklake_serverless.Store.Memory.{InMemoryObjectStore, Stored, lookup, in_memory}
use ducklake_serverless.Gc.Ledger.{
  tombstone_key, ledger_at, LedgerJson, load_tombstones, commit_tombstones,
}
use ducklake_serverless.Gc.Ledger.Fence.{IsStale, commit_tombstones_fences}

abbrev json : LedgerJson
json = record { dump = λ doc. []; validate = λ body. some [] }

abbrev clock : ℕ → ℕ
clock n = n

abbrev ledger_body : Text → Stored
ledger_body etag = record { body = []; etag = etag; written = 1 }

abbrev with_ledger : Text → InMemoryObjectStore
with_ledger etag = record { objects = (tombstone_key, ledger_body etag) ∷ []; etag_counter = 2 }

old_read :
    load_tombstones (in_memory clock) json (with_ledger (text "old"))
    ≡ (ok ([], ledger_at (text "old")), with_ledger (text "old"))
unfolding load_tombstones in_memory lookup text_eq
old_read = refl

-- The ledger of a rival, which a cycle that read the old one does not know.
abbrev Rival : InMemoryObjectStore → Type 0
Rival s = lookup s.objects tombstone_key ≡ some (ledger_body (text "new"))

old-IsStale : IsStale (in_memory clock) json (λ e. ⊥) Rival (ledger_at (text "old"))
unfolding in_memory text_eq
old-IsStale body s there = rw there (raised (there, inl (inl refl)))

commit_tombstones_fences_example :
    Post
      (λ _ _. ⊥)
      (λ e s. Rival s × ((e ≡ external_service) ⊎ ⊥))
      (commit_tombstones
        (in_memory clock)
        json
        ((text "p", 7) ∷ [])
        (ledger_at (text "old"))
        (with_ledger (text "new")))
commit_tombstones_fences_example =
    commit_tombstones_fences (in_memory clock) json (λ e. ⊥) Rival (ledger_at (text "old"))
      ((text "p", 7) ∷ []) (with_ledger (text "new")) old-IsStale (unfold lookup text_eq in refl)
