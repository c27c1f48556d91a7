-- ===== src/Gc/Decide.antt =====
-- gc.py, `CommittedWhole` to `TombstoneDoc` and `decide_pack_sweep`: the pure decision of a sweep.
-- Sets are lists; the order of their elements is nowhere used.
pub mod Safety
pub mod Plan
use ducklake_serverless.Base.{
  ℕ, zero, suc, ◌-◌, ◌*◌, Text, text_eq, Option, none, some, List, [], ◌∷◌, ◌++◌, map, any, Bool,
  true, false, not, ◌&&◌, ◌||◌, ltb, leb, length, if◌then◌else◌,
}
use ducklake_serverless.Models.RootDoc.{RootDoc}
use ducklake_serverless.Chunk.Manifest.{Manifest, pack_keys}
use ducklake_serverless.Store.{ObjectMeta}

pub data ResolvedPayload : Type 0 where
  committed_whole : RootDoc → ResolvedPayload
  committed_chunked : RootDoc → Manifest → ResolvedPayload
  orphan_manifest : Text → Manifest → ResolvedPayload
  orphan_opaque : Text → ResolvedPayload

pub record SweepActions : Type 0 where
  pub marked : List Text
  pub tombstone : List Text
  pub resurrect : List Text
  pub delete : List Text

pub data PackSweepPlan : Type 0 where
  refuse_sweep : PackSweepPlan
  sweep_actions : SweepActions → PackSweepPlan

-- The ledger: pack key to the time at which the pack was first seen cold.
abbrev pub ColdSince : Type 0
ColdSince = List (Text × ℕ)

unfoldable pub cold_get : Text → ColdSince → Option ℕ
cold_get key [] = none
cold_get key ((k, t) ∷ rest) = if text_eq k key then some t else cold_get key rest

-- `key in keys`
unfoldable pub member : Text → List Text → Bool
member key = any (text_eq key)

-- `marked |= manifest.pack_keys()` over the manifests that are retained, committed or not.
unfoldable pub marked_of : List ResolvedPayload → List Text
marked_of [] = []
marked_of (committed_whole doc ∷ rest) = marked_of rest
marked_of (committed_chunked doc m ∷ rest) = pack_keys m ++ marked_of rest
marked_of (orphan_manifest key m ∷ rest) = pack_keys m ++ marked_of rest
marked_of (orphan_opaque key ∷ rest) = marked_of rest

unfoldable pub committed_refs_of : List ResolvedPayload → List Text
committed_refs_of [] = []
committed_refs_of (committed_chunked doc m ∷ rest) = pack_keys m ++ committed_refs_of rest
committed_refs_of (item ∷ rest) = committed_refs_of rest

-- `d[m.key] = m`
unfoldable pub put_meta : ObjectMeta → List ObjectMeta → List ObjectMeta
put_meta m [] = m ∷ []
put_meta m (n ∷ rest) = if text_eq n.key m.key then m ∷ rest else n ∷ put_meta m rest

-- `{m.key: m for m in pack_metas}`
unfoldable pub listed_from : List ObjectMeta → List ObjectMeta → List ObjectMeta
listed_from acc [] = acc
listed_from acc (m ∷ metas) = listed_from (put_meta m acc) metas

-- What one pass of the loop does with a pack.
pub data PackFate : Type 0 where
  leave tombstoned resurrected deleted : PackFate

-- The age of a pack is unknown without LastModified, and then it is young. Differences of times
-- stop at 0 here; a negative one is within every grace, as 0 is.
unfoldable pub is_young : ℕ → ℕ → ObjectMeta → Bool
is_young store_now grace meta = elim meta.last_modified [
  | none ↦ true
  | some t ↦ leb (store_now - t) grace
]

unfoldable pub fate : List Text → ColdSince → ℕ → ℕ → ObjectMeta → PackFate
fate marked cold_since store_now grace meta =
    if member meta.key marked || is_young store_now grace meta
    then (elim (cold_get meta.key cold_since) [ none ↦ leave | some _ ↦ resurrected ])
    else elim (cold_get meta.key cold_since) [
      | none ↦ tombstoned
      | some t ↦ if ltb grace (store_now - t) then deleted else leave
    ]

abbrev pub add_fate : PackFate → Text → SweepActions → SweepActions
add_fate leave key a = a
add_fate tombstoned key a = record a { tombstone = key ∷ a.tombstone }
add_fate resurrected key a = record a { resurrect = key ∷ a.resurrect }
add_fate deleted key a = record a { delete = key ∷ a.delete }

-- `for key, meta in listed.items()`
unfoldable pub sweep_items : List Text → ColdSince → ℕ → ℕ → List ObjectMeta → SweepActions
sweep_items marked cold now grace [] = record {
  marked = marked;
  tombstone = [];
  resurrect = [];
  delete = [];
}
sweep_items marked cold now grace (meta ∷ rest) =
    add_fate (fate marked cold now grace meta) meta.key (sweep_items marked cold now grace rest)

abbrev pub breaker_min : ℕ
breaker_min = 10

-- `max_delete_fraction`, 0.4 by default, as a fraction of whole numbers.
pub record Fraction : Type 0 where
  pub numerator : ℕ
  pub denominator : ℕ

abbrev pub default_max_delete_fraction : Fraction
default_max_delete_fraction = record { numerator = 2; denominator = 5 }

-- `len(listed) >= _BREAKER_MIN and len(delete) > max_delete_fraction * len(listed)`
unfoldable pub trips_breaker : Fraction → ℕ → ℕ → Bool
trips_breaker f packs doomed =
    leb breaker_min packs && ltb (f.numerator * packs) (f.denominator * doomed)

unfoldable pub decide_pack_sweep :
    List ResolvedPayload → List ObjectMeta → ColdSince → ℕ → ℕ → Fraction → PackSweepPlan
decide_pack_sweep resolved pack_metas cold_since store_now grace max_delete_fraction =
    let listed = listed_from [] pack_metas in
    let actions = sweep_items (marked_of resolved) cold_since store_now grace listed in
    if any (λ key. not (member key (map (λ (m : ObjectMeta). m.key) listed)))
      (committed_refs_of resolved)
    then refuse_sweep
    else if trips_breaker max_delete_fraction (length listed) (length actions.delete)
    then refuse_sweep
    else sweep_actions actions
