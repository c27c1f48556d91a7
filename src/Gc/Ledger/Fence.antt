-- ===== src/Gc/Ledger/Fence.antt =====
-- The fence of the ledger, over any store.
use ducklake_serverless.Base.{◌≡◌, ◌⊎◌, inl, inr, refl, Text, Bytes}
use ducklake_serverless.Errors.{
  Error, Result, err, external_service, precondition_failed, conditional_conflict, object_not_found,
  Post, raised, Post-handle,
}
use ducklake_serverless.Store.{ObjectStore}
use ducklake_serverless.Lease.Exclusion.{IsRefused}
use ducklake_serverless.Gc.Decide.{ColdSince}
use ducklake_serverless.Gc.Ledger.{
  tombstone_key, LedgerRef, ledger_absent, ledger_corrupt, ledger_at, LedgerJson, fenced,
  commit_tombstones,
}

module _ {W : Type 0} (store : ObjectStore W) (json : LedgerJson) (Other : Error → Type 0) where
  -- What an answer to a write that does not land leaves.
  abbrev pub Refuses : (W → Type 0) → Result Text × W → Type 0
  Refuses Rival = Post (λ _ _. ⊥) (λ e w. Rival w × (IsRefused e ⊎ Other e))

  -- A rival's ledger is there that this reference does not know: the conditional write that
  -- belongs to the reference does not land on it. A corrupt ledger is overwritten without a condition.
  abbrev pub IsStale : (W → Type 0) → LedgerRef → Type 0
  IsStale Rival ledger_absent =
      (body : Bytes) (w : W) → Rival w → Refuses Rival (store.put_if_absent tombstone_key body w)
  IsStale Rival ledger_corrupt = ⊥
  IsStale Rival (ledger_at etag) =
      (body : Bytes) (w : W)
      → Rival w
      → Refuses Rival (store.put_if_match tombstone_key body etag w)

  abbrev FencedPost : (W → Type 0) → Result (Unit {0}) × W → Type 0
  FencedPost Rival = Post (λ _ _. ⊥) (λ e w. Rival w × ((e ≡ external_service) ⊎ Other e))

  fenced-Post :
      (Rival : W → Type 0) (e : Error) (w : W)
      → Rival w
      → (IsRefused e ⊎ Other e)
      → FencedPost Rival (fenced store json (err e) w)
  fenced-Post Rival precondition_failed w t h = raised (t, inl refl)
  fenced-Post Rival conditional_conflict w t h = raised (t, inl refl)
  fenced-Post Rival object_not_found w t h = raised (t, inl refl)
  fenced-Post Rival e w t (inr other) = raised (t, inr other)
  fenced-Post Rival e w t (inl (inl same)) = absurd (cc same)
  fenced-Post Rival e w t (inl (inr (inl same))) = absurd (cc same)
  fenced-Post Rival e w t (inl (inr (inr same))) = absurd (cc same)

  -- If a rival has written the ledger since a cycle read it, absent or valid, so that the write on
  -- the condition of what was read does not land, then the cycle's write of the ledger raises, and
  -- leaves the rival's ledger: ExternalServiceError if the store answers 412, 409 or 404, and the
  -- store's own error otherwise. It never returns, whatever the store answers.
  pub commit_tombstones_fences :
      (Rival : W → Type 0) (ref : LedgerRef) (written : ColdSince) (w : W)
      → IsStale Rival ref
      → Rival w
      → Post
          (λ _ _. ⊥)
          (λ e w'. Rival w' × ((e ≡ external_service) ⊎ Other e))
          (commit_tombstones store json written ref w)
  unfolding commit_tombstones
  commit_tombstones_fences Rival ledger_absent written w stale t =
      Post-handle (fenced store json) (stale (json.dump written) w t) (λ _ _ x. absurd x)
        λ e v h. fenced-Post Rival e v h.0 h.1
  commit_tombstones_fences Rival (ledger_at etag) written w stale t =
      Post-handle (fenced store json) (stale (json.dump written) w t) (λ _ _ x. absurd x)
        λ e v h. fenced-Post Rival e v h.0 h.1
  commit_tombstones_fences Rival ledger_corrupt written w stale t = absurd stale
