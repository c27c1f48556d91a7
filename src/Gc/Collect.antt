-- ===== src/Gc/Collect.antt =====
-- gc.py, `GcReport` to `_collect_locked`, and `_pack_sweep`: one cycle of the collection. Times are
-- whole seconds; the orders in which the source sorts keys are left out.
pub mod Cycles
pub mod Spares
use ducklake_serverless.Base.{
  ℕ, ◌+◌, Text, text_eq, Option, none, some, List, [], ◌∷◌, ◌++◌, map, filter, Bool, true, false,
  not, ◌&&◌, ◌||◌, leb, ltb, if◌then◌else◌, dict_set, dict_pop,
}
use ducklake_serverless.Errors.{
  Error, Result, ok, err, external_service, input_validation, Exec, pure, raise, lift, handle,
  absent_or, ensuring, ◌>>=◌, ◌>>◌,
}
use ducklake_serverless.Models.Pattern.{Class}
use ducklake_serverless.Models.Keys.{payload_prefix}
use ducklake_serverless.Models.Changeset.{nonempty}
use ducklake_serverless.Models.RootDoc.{RootDoc, JsonBytes, payload_key}
use ducklake_serverless.Store.{ObjectMeta, ObjectStore}
use ducklake_serverless.Root.{resolve_head, write_hint}
use ducklake_serverless.Chunk.Manifest.{ManifestJson, packs_prefix}
use ducklake_serverless.Chunk.Transfer.{distinct}
use ducklake_serverless.Lease.{Lease, acquire, release}
use ducklake_serverless.Gc.Decide.{
  ResolvedPayload, PackSweepPlan, refuse_sweep, sweep_actions, SweepActions, ColdSince, member,
  committed_refs_of, decide_pack_sweep, default_max_delete_fraction,
}
use ducklake_serverless.Gc.Ledger.{
  generation_of, LedgerJson, LedgerRef, store_now, load_tombstones, commit_tombstones,
}
use ducklake_serverless.Gc.Deletes.{away, must_renew, keep_lease, delete_cold_packs}
use ducklake_serverless.Gc.Resolve.{resolve_payloads}

pub record PackReport : Type 0 where
  pub swept : List Text
  pub kept : List Text
  pub tombstoned : List Text

pub record GcReport : Type 0 where
  pub dry_run : Bool
  pub swept_catalogs : List Text
  pub kept_catalogs : List Text
  pub packs : PackReport

-- `MIN_PACK_GRACE`, of one hour.
abbrev pub min_pack_grace : ℕ
min_pack_grace = 3600

-- What a collection is given.
pub record Collector (W : Type 0) : Type 0 where
  pub store : ObjectStore W
  pub json : JsonBytes
  pub manifest_json : ManifestJson
  pub ledger_json : LedgerJson
  pub decimal : Class
  pub lease : Lease W

abbrev pub keys_of : List ObjectMeta → List Text
keys_of = map (λ (m : ObjectMeta). m.key)

-- `keys - others`
abbrev pub without : List Text → List Text → List Text
without keys others = filter (λ key. not (member key others)) keys

abbrev pub set_all : ℕ → List Text → ColdSince → ColdSince
set_all now [] cold = cold
set_all now (key ∷ keys) cold = set_all now keys (dict_set key now cold)

abbrev pub pop_all : List Text → ColdSince → ColdSince
pop_all [] cold = cold
pop_all (key ∷ keys) cold = pop_all keys (dict_pop key cold)

-- `new_cold`: the ledger that this cycle leaves.
unfoldable pub next_ledger : SweepActions → List Text → ℕ → ColdSince → ColdSince
next_ledger plan present now cold = pop_all plan.delete (
    set_all now plan.tombstone
      (filter (λ row. not (member row.0 plan.resurrect) && member row.0 present) cold))

module _ {W : Type 0} (gc : Collector W) (dry_run : Bool) where
  -- The listing, and the missing packs whose HEAD finds them.
  unfoldable pub head_missing : List Text → List ObjectMeta → Exec W (List ObjectMeta)
  head_missing [] metas w = (ok metas, w)
  head_missing (key ∷ keys) metas w =
      handle (gc.store.head_meta key)
        (absent_or (λ u. head_missing keys metas u)
          (λ meta u. head_missing keys (metas ++ meta ∷ []) u))
        w

  module _ (grace : ℕ) where
    -- The tombstones are written before anything is deleted.
    abbrev pub execute :
        SweepActions
        → List ObjectMeta
        → ColdSince
        → LedgerRef
        → ℕ
        → Exec (W × Option Text) PackReport
    execute plan metas cold ref now = do
      _ ← must_renew gc.store gc.lease grace
      _ ← away (
          commit_tombstones gc.store gc.ledger_json (next_ledger plan (keys_of metas) now cold) ref)
      swept ← delete_cold_packs gc.store gc.lease grace plan.delete
      pure (record {
        swept = swept;
        kept = without (keys_of metas) swept;
        tombstoned = plan.tombstone;
      })

    abbrev pub follow :
        PackSweepPlan
        → List ObjectMeta
        → ColdSince
        → LedgerRef
        → ℕ
        → Exec (W × Option Text) PackReport
    follow refuse_sweep metas cold ref now = raise external_service
    follow (sweep_actions plan) metas cold ref now =
        if dry_run
        then pure (record {
          swept = plan.delete;
          kept = without (keys_of metas) plan.delete;
          tombstoned = plan.tombstone;
        })
        else execute plan metas cold ref now

    abbrev pub sweep_resolved :
        List ObjectMeta → Option (List ResolvedPayload) → Exec (W × Option Text) PackReport
    sweep_resolved pack_metas none = raise external_service
    sweep_resolved pack_metas (some resolved) =
        let refs = distinct (committed_refs_of resolved) in
        if not (nonempty pack_metas) && not (nonempty refs)
        then pure (record { swept = []; kept = []; tombstoned = [] })
        else (do
          metas ← away (head_missing (without refs (keys_of pack_metas)) pack_metas)
          (cold, ref) ← away (load_tombstones gc.store gc.ledger_json)
          now ← away (store_now gc.store)
          follow (decide_pack_sweep resolved metas cold now grace default_max_delete_fraction) metas
              cold ref now)

    unfoldable pub pack_sweep : RootDoc → List Text → Exec (W × Option Text) PackReport
    unfolding head_missing next_ledger
    pack_sweep current kept_keys = do
      pack_metas ← away (gc.store.list_meta packs_prefix)
      resolved ←
          away (resolve_payloads gc.store gc.json gc.manifest_json gc.decimal current kept_keys)
      sweep_resolved pack_metas resolved

    -- `key == current.payload_key or generation >= floor`, where the floor is
    -- `current.generation - retain_generations + 1`; a key without a generation is kept too.
    unfoldable pub is_kept : RootDoc → Text → ℕ → Text → Bool
    is_kept current head_key retain key = elim (generation_of gc.decimal key) [
      | none ↦ true
      | some g ↦ text_eq key head_key || leb (current.generation + 1) (g + retain)
    ]

    -- `for key in listed`
    unfoldable pub sweep_catalogs :
        RootDoc
        → Text
        → ℕ
        → List Text
        → List Text
        → List Text
        → Exec (W × Option Text) (List Text × List Text)
    unfolding is_kept
    sweep_catalogs current head_key retain [] swept kept w = (ok (swept, kept), w)
    sweep_catalogs current head_key retain (key ∷ listed) swept kept w =
        (if is_kept current head_key retain key
            then (λ u. sweep_catalogs current head_key retain listed swept (kept ++ key ∷ []) u)
            else if dry_run
            then (λ u. sweep_catalogs current head_key retain listed (swept ++ key ∷ []) kept u)
            else (do
              _ ← away (gc.store.delete key)
              _ ← keep_lease gc.store gc.lease grace (swept ++ key ∷ [])
              (λ u. sweep_catalogs current head_key retain listed (swept ++ key ∷ []) kept u)))
          w

    -- The head's payload must be listed; a marker that was read has a payload key.
    abbrev pub verify_head : Text → ℕ → List Text → Exec W (Unit {0})
    verify_head head_key head_gen listed =
        if dry_run
        then pure tt
        else if member head_key listed
        then write_hint gc.store gc.json head_gen
        else raise external_service

    unfoldable pub collect_locked : ℕ → Exec (W × Option Text) GcReport
    unfolding pack_sweep sweep_catalogs
    collect_locked retain = do
      (current, head_gen) ← away (resolve_head gc.store gc.json)
      listed ← away (gc.store.list_prefix payload_prefix)
      head_key ← lift (payload_key current)
      _ ← away (verify_head head_key head_gen listed)
      (swept, kept) ← sweep_catalogs current head_key retain listed [] []
      packs ← pack_sweep current kept
      pure (record {
        dry_run = dry_run;
        swept_catalogs = swept;
        kept_catalogs = kept;
        packs = packs;
      })

    -- `finally: lease.release()`, with the ETag that the lease then holds.
    abbrev pub released_after : Result GcReport × (W × Option Text) → Result (Option GcReport) × W
    released_after (ok report, (w, held)) = (release gc.lease held >> pure (some report)) w
    released_after (err e, (w, held)) = (release gc.lease held >> raise e) w

    -- `acquire` is given how often it may call itself. A grace is not negative here.
    unfoldable pub collect : ℕ → ℕ → Bool → Exec W (Option GcReport)
    unfolding collect_locked
    collect fuel retain unsafe_allow_short_grace =
        if ltb retain 1
        then raise input_validation
        else if not dry_run && (ltb grace min_pack_grace && not unsafe_allow_short_grace)
        then raise input_validation
        else (do
          (acquired, held) ← acquire gc.lease fuel none
          if acquired then (λ w. released_after (collect_locked retain (w, held))) else pure none)
