-- ===== src/Gc/Resolve.antt =====
-- gc.py, `resolve_payloads` to `_marker_for`: what every retained payload is, by its marker, or by
-- its content where it has none.
use ducklake_serverless.Base.{
  ℕ, Text, text_eq, Option, none, some, List, [], ◌∷◌, leb, ◌==◌, if◌then◌else◌,
}
use ducklake_serverless.Errors.{
  Result, ok, err, input_validation, object_not_found, Exec, pure, raise, lift, handle, absent_or,
  ◌>>=◌,
}
use ducklake_serverless.Models.Pattern.{Class}
use ducklake_serverless.Models.RootDoc.{RootDoc, JsonBytes, Transport, whole, chunked, payload_key}
use ducklake_serverless.Store.{ObjectMeta, ObjectStore}
use ducklake_serverless.Root.{read_marker}
use ducklake_serverless.Chunk.Manifest.{Manifest, ManifestJson, sniff_manifest, max_manifest_bytes}
use ducklake_serverless.Chunk.Transfer.{load_manifest}
use ducklake_serverless.Gc.Decide.{
  ResolvedPayload, committed_whole, committed_chunked, orphan_manifest, orphan_opaque,
}
use ducklake_serverless.Gc.Ledger.{generation_of}

module _ {W : Type 0} (store : ObjectStore W) (json : JsonBytes) (manifest_json : ManifestJson)
    (decimal : Class) where
  unfoldable pub marker_for : RootDoc → ℕ → Exec W (Option RootDoc)
  marker_for current generation =
      if generation == current.generation
      then pure (some current)
      else handle (read_marker store json generation)
          (absent_or (pure none) (λ doc. pure (some doc)))

  abbrev pub sniffed : Text → Option Manifest → ResolvedPayload
  sniffed key none = orphan_opaque key
  sniffed key (some manifest) = orphan_manifest key manifest

  -- An object that is too large is not fetched, and is no manifest.
  abbrev pub sniff : Text → ObjectMeta → Exec W ResolvedPayload
  sniff key meta =
      if leb meta.size max_manifest_bytes
      then (do
        result ← store.get key
        pure (sniffed key (sniff_manifest manifest_json result.body)))
      else pure (orphan_opaque key)

  -- `none` where the object vanished meanwhile.
  unfoldable pub resolve_orphan : Text → Exec W (Option ResolvedPayload)
  resolve_orphan key =
      handle (store.head_meta key >>= sniff key) (absent_or (pure none) (λ item. pure (some item)))

  -- `none` stands for RefuseSweep; its reason is a message.
  abbrev pub settle_manifest : RootDoc → Result Manifest → Exec W (Option ResolvedPayload)
  settle_manifest doc (ok manifest) = pure (some (committed_chunked doc manifest))
  settle_manifest doc (err object_not_found) = pure none
  settle_manifest doc (err input_validation) = pure none
  settle_manifest doc (err e) = raise e

  -- `match doc.transport`; `_load_committed_manifest` is `load_manifest` of chunk.py.
  abbrev pub resolve_committed : RootDoc → Text → Transport → Exec W (Option ResolvedPayload)
  resolve_committed doc key whole = pure (some (committed_whole doc))
  resolve_committed doc key chunked =
      handle (load_manifest store manifest_json key) (settle_manifest doc)

  -- What follows one payload that is resolved, refused, or vanished.
  abbrev pub add_committed :
      Exec W (Option (List ResolvedPayload))
      → Option ResolvedPayload
      → Exec W (Option (List ResolvedPayload))
  add_committed rest none = pure none
  add_committed rest (some item) = rest >>= prepend item
    where
      prepend :
          ResolvedPayload → Option (List ResolvedPayload) → Exec W (Option (List ResolvedPayload))
      prepend item none = pure none
      prepend item (some items) = pure (some (item ∷ items))

  abbrev pub add_orphan :
      Exec W (Option (List ResolvedPayload))
      → Option ResolvedPayload
      → Exec W (Option (List ResolvedPayload))
  add_orphan rest none = rest
  add_orphan rest (some item) = add_committed rest (some item)

  -- `doc is not None and doc.payload_key == key`
  unfoldable pub owns : Text → Option RootDoc → Exec W (Option RootDoc)
  owns key none = pure none
  owns key (some doc) = do
    own_key ← lift (payload_key doc)
    if text_eq own_key key then pure (some doc) else pure none

  abbrev pub resolve_owned :
      Exec W (Option (List ResolvedPayload))
      → Text
      → Option RootDoc
      → Exec W (Option (List ResolvedPayload))
  resolve_owned rest key (some doc) = resolve_committed doc key doc.transport >>= add_committed rest
  resolve_owned rest key none = resolve_orphan key >>= add_orphan rest

  -- The rest of the keys is resolved after this one; nothing is after a refusal.
  abbrev pub resolve_one :
      RootDoc
      → Exec W (Option (List ResolvedPayload))
      → Text
      → Option ℕ
      → Exec W (Option (List ResolvedPayload))
  resolve_one current rest key none = rest
  resolve_one current rest key (some generation) = do
    doc ← marker_for current generation
    owner ← owns key doc
    resolve_owned rest key owner

  unfoldable pub resolve_payloads : RootDoc → List Text → Exec W (Option (List ResolvedPayload))
  unfolding marker_for resolve_orphan owns
  resolve_payloads current [] w = (ok (some []), w)
  resolve_payloads current (key ∷ keys) w =
      resolve_one current (λ u. resolve_payloads current keys u) key (generation_of decimal key) w
