-- ===== src/Gc/Deletes.antt =====
-- gc.py, `_delete_cold_packs`, and the lease during a collection: the world is that of the store,
-- with the ETag that the `Lease` object holds.
use ducklake_serverless.Base.{
  ℕ, ◌-◌, ◌%◌, Text, Option, none, some, List, [], ◌∷◌, ◌++◌, Bool, false, leb, ◌==◌, length,
  if◌then◌else◌,
}
use ducklake_serverless.Errors.{
  Result, ok, err, external_service, Exec, pure, raise, handle, absent_or, ◌>>=◌,
}
use ducklake_serverless.Lease.{Lease, renew}
use ducklake_serverless.Store.{ObjectStore}
use ducklake_serverless.Gc.Ledger.{store_now}

-- `_RENEW_EVERY`
abbrev pub renew_every : ℕ
renew_every = 50

-- The age at the pre-delete HEAD; a pack without a time is not young here.
unfoldable pub went_young : ℕ → ℕ → Option ℕ → Bool
went_young recheck_now grace none = false
went_young recheck_now grace (some t) = leb (recheck_now - t) grace

module _ {W : Type 0} where
  -- A call that does not touch the lease object.
  abbrev pub away : {A : Type 0} → Exec W A → Exec (W × Option Text) A
  away m (w, held) = let (r, v) = m w in (r, (v, held))

  -- What a call of the lease returns, and the ETag that it leaves.
  abbrev pub answered :
      Option Text → Result (Bool × Option Text) × W → Result Bool × (W × Option Text)
  answered held (ok (b, held'), w) = (ok b, (w, held'))
  answered held (err e, w) = (err e, (w, held))

module _ {W : Type 0} (store : ObjectStore W) (lease : Lease W) (grace : ℕ) where
  unfoldable pub renew_held : Exec (W × Option Text) Bool
  renew_held (w, held) = answered held (renew lease held w)

  -- `not lease.renew()` ends the sweep.
  unfoldable pub must_renew : Exec (W × Option Text) (Unit {0})
  unfolding renew_held
  must_renew = do held ← renew_held; if held then pure tt else raise external_service

  -- One in fifty deletes renews the lease.
  unfoldable pub keep_lease : List Text → Exec (W × Option Text) (Unit {0})
  unfolding must_renew
  keep_lease swept = if length swept % renew_every == 0 then must_renew else pure tt

  -- The loop over the candidates, with the keys that are swept.
  unfoldable pub delete_rounds : ℕ → List Text → List Text → Exec (W × Option Text) (List Text)
  unfolding went_young keep_lease
  delete_rounds recheck_now [] swept w = (ok swept, w)
  delete_rounds recheck_now (key ∷ rest) swept w =
      handle (away (store.head_meta key))
        (absent_or (λ u. delete_rounds recheck_now rest swept u)
          λ meta u.
            (if went_young recheck_now grace meta.last_modified
              then delete_rounds recheck_now rest swept u
              else (do
                _ ← away (store.delete key)
                _ ← keep_lease (swept ++ key ∷ [])
                (λ v. delete_rounds recheck_now rest (swept ++ key ∷ []) v))
                  u))
        w

  unfoldable pub delete_cold_packs : List Text → Exec (W × Option Text) (List Text)
  unfolding delete_rounds
  delete_cold_packs candidates = do
    recheck_now ← away (store_now store)
    delete_rounds recheck_now candidates []
