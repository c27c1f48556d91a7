-- ===== src/Gc/Ledger.antt =====
-- gc.py, `_generation_of` and `_store_now` to `_commit_tombstones`: the clock probe and the ledger
-- with its fence. The bytes of the ledger's JSON are a parameter.
pub mod Fence
use ducklake_serverless.Base.{
  ℕ, ◌-◌, ◌%◌, Text, Bytes, text, Option, none, some, List, [], ◌∷◌, ◌++◌, Bool, true, false, leb,
  ◌==◌, length, if◌then◌else◌,
}
use ducklake_serverless.Errors.{
  Error, Result, ok, err, external_service, object_not_found, precondition_failed,
  conditional_conflict, Exec, pure, raise, handle, absent_or, ◌>>=◌, ◌>>◌,
}
use ducklake_serverless.Models.Pattern.{Class}
use ducklake_serverless.Models.Keys.{Uuid, parse_payload_key}
use ducklake_serverless.Store.{GetResult, ObjectMeta, ObjectStore}
use ducklake_serverless.Lease.{Lease, renew}
use ducklake_serverless.Gc.Decide.{ColdSince}

abbrev pub tombstone_key : Text
tombstone_key = text "gc/pack-tombstones"

abbrev pub clock_probe_key : Text
clock_probe_key = text "gc/clock-probe"

abbrev generation_in : Result (ℕ × Uuid) → Option ℕ
generation_in (ok (g, u)) = some g
generation_in (err e) = none

-- The parser raises nothing but InputValidationError.
unfoldable pub generation_of : Class → Text → Option ℕ
generation_of decimal key = generation_in (parse_payload_key decimal key)

pub data LedgerRef : Type 0 where
  ledger_absent ledger_corrupt : LedgerRef
  ledger_at : Text → LedgerRef

pub record LedgerJson : Type 0 where
  pub dump : ColdSince → Bytes
  pub validate : Bytes → Option ColdSince

module _ {W : Type 0} (store : ObjectStore W) where
  abbrev probed : Option ℕ → Exec W ℕ
  probed none = raise external_service
  probed (some t) = pure t

  unfoldable pub store_now : Exec W ℕ
  store_now = do
    store.put clock_probe_key (text "t")
    meta ← store.head_meta clock_probe_key
    probed meta.last_modified

  module _ (json : LedgerJson) where
    abbrev ledger_of : Text → Option ColdSince → ColdSince × LedgerRef
    ledger_of etag none = ([], ledger_corrupt)
    ledger_of etag (some doc) = (doc, ledger_at etag)

    unfoldable pub load_tombstones : Exec W (ColdSince × LedgerRef)
    load_tombstones = handle (store.get tombstone_key) (
        absent_or (pure ([], ledger_absent))
          λ result. pure (ledger_of result.etag (json.validate result.body)))

    abbrev put_ledger : Bytes → LedgerRef → Exec W Text
    put_ledger body ledger_absent = store.put_if_absent tombstone_key body
    put_ledger body ledger_corrupt = store.put tombstone_key body
    put_ledger body (ledger_at etag) = store.put_if_match tombstone_key body etag

    -- A rival cycle wrote the ledger.
    abbrev pub fenced : Result Text → Exec W (Unit {0})
    fenced (ok _) = pure tt
    fenced (err precondition_failed) = raise external_service
    fenced (err conditional_conflict) = raise external_service
    fenced (err object_not_found) = raise external_service
    fenced (err e) = raise e

    unfoldable pub commit_tombstones : ColdSince → LedgerRef → Exec W (Unit {0})
    commit_tombstones doc ref = handle (put_ledger (json.dump doc) ref) fenced
