-- ===== src/Root.antt =====
-- root.py: read, create and resolve generation markers, and discover the head. The store, and the
-- bytes of JSON, are parameters.
pub mod Keeps
pub mod Frame
pub mod Reading
pub mod Gallop
pub mod Forward
pub mod Head
use ducklake_serverless.Base.{
  ℕ, zero, suc, ◌+◌, ◌-◌, ◌*◌, ◌/◌, min, Text, Bytes, text, Bool, true, false, Option, none, some,
  ltb, leb, ◌==◌, if◌then◌else◌,
}
use ducklake_serverless.Errors.{
  Error, Result, ok, err, external_service, object_not_found, lake_not_initialized, out_of_fuel,
  Exec, pure, raise, lift, handle, absent_or, is_object_not_found, ◌>>=◌,
}
use ducklake_serverless.Models.Keys.{Uuid, uuid_eq, format_marker_key, max_generation}
use ducklake_serverless.Models.RootDoc.{
  RootDoc, HintDoc, JsonBytes, marker_key, from_json_bytes, to_json_bytes, hint_from_json_bytes,
  hint_to_json_bytes,
}
use ducklake_serverless.Store.{ObjectStore}

abbrev pub root_hint_key : Text
root_hint_key = text "root-hint"

abbrev pub probe_cap : ℕ
probe_cap = 4096

abbrev pub gallop_cap : ℕ
gallop_cap = 1024

pub data MarkerOutcome : Type 0 where
  won lost absent : MarkerOutcome

-- The hint's generation; `none` where its body is corrupt.
abbrev pub readable_hint : Option HintDoc → Option ℕ
readable_hint none = none
readable_hint (some doc) = some doc.generation

module _ {W : Type 0} (store : ObjectStore W) (json : JsonBytes) where
  -- `RootDoc.from_json_bytes` and the check of the generation.
  abbrev pub checked_doc : ℕ → Option RootDoc → Exec W RootDoc
  checked_doc g none = raise external_service
  checked_doc g (some doc) = if doc.generation == g then pure doc else raise external_service

  unfoldable pub read_marker : ℕ → Exec W RootDoc
  read_marker g = do
    key ← lift (format_marker_key g)
    result ← store.get key
    checked_doc g (from_json_bytes json result.body)

  unfoldable pub create_marker : RootDoc → Exec W Text
  create_marker doc = do
    key ← lift (marker_key doc)
    store.put_if_absent key (to_json_bytes json doc)

  unfoldable pub resolve_marker : ℕ → Uuid → Exec W MarkerOutcome
  resolve_marker g our_uuid = handle (read_marker g) (
      absent_or (pure absent) λ doc. pure (if uuid_eq doc.payload_uuid our_uuid then won else lost))

  -- `contextlib.suppress(ExternalServiceError)`
  abbrev pub suppress_external : {A : Type 0} → Result A → Exec W (Unit {0})
  suppress_external (ok _) = pure tt
  suppress_external (err external_service) = pure tt
  suppress_external (err e) = raise e

  unfoldable pub write_hint : ℕ → Exec W (Unit {0})
  write_hint g =
      handle (store.put root_hint_key (hint_to_json_bytes json (record { generation = g })))
        suppress_external

  -- Missing and unreachable hints read as none.
  abbrev pub hint_result : Result Bytes → Exec W (Option ℕ)
  hint_result (ok body) = pure (readable_hint (hint_from_json_bytes json body))
  hint_result (err object_not_found) = pure none
  hint_result (err external_service) = pure none
  hint_result (err e) = raise e

  unfoldable pub hint_generation : Exec W (Option ℕ)
  hint_generation = handle (do result ← store.get root_hint_key; pure result.body) hint_result

  -- The exponential bracket: `lo` is present, and `hi` is the first probe that is absent, or the
  -- number behind the last generation.
  unfoldable pub bracket : ℕ → ℕ → ℕ → Exec W (ℕ × ℕ)
  bracket zero lo step w = (err out_of_fuel, w)
  bracket (suc n) lo step w =
      let probe = lo + step in
      if ltb max_generation probe
      then (ok (lo, max_generation + 1), w)
      else handle (read_marker probe)
          (absent_or (pure (lo, probe)) (λ _ w'. bracket n probe (step * 2) w')) w

  -- `while left <= right`: the last generation that is present.
  unfoldable pub binary_search : ℕ → ℕ → ℕ → ℕ → Exec W ℕ
  binary_search zero left right last w = (err out_of_fuel, w)
  binary_search (suc n) left right last w =
      let mid = (left + right) / 2 in
      if leb left right
      then handle (read_marker mid)
          (absent_or (λ w'. binary_search n left (mid - 1) last w')
            (λ _ w'. binary_search n (mid + 1) right mid w'))
          w
      else (ok last, w)

  -- The two loops; each round of the first moves `lo` on, each of the second shrinks the interval.
  unfoldable pub frontier : Exec W ℕ
  frontier = do
    (lo, hi) ← bracket (max_generation + 1) 0 1
    binary_search (hi - lo) (lo + 1) (hi - 1) lo

  unfoldable pub gallop_discover : Exec W RootDoc
  gallop_discover = handle (read_marker 0) (
      absent_or (raise lake_not_initialized)
        λ low_doc. do last ← frontier; if last == 0 then pure low_doc else read_marker last)

  -- The forward probe; the fuel is `PROBE_CAP - probes`.
  unfoldable pub forward : ℕ → RootDoc → ℕ → ℕ → Exec W (RootDoc × ℕ)
  forward zero doc generation step w = (ok (doc, generation), w)
  forward (suc n) doc generation step w =
      let target = generation + step in
      let refine = λ (w' : W).
        (if step == 1 then (ok (doc, generation), w') else forward n doc generation 1 w') in
      if ltb max_generation target
      then refine w
      else handle (read_marker target)
          (absent_or refine λ nxt w'. forward n nxt target (min (step * 2) gallop_cap) w') w

  abbrev pub start_at : Option ℕ → Exec W RootDoc
  start_at none = gallop_discover
  start_at (some hint) = handle (read_marker hint) (absent_or gallop_discover pure)

  unfoldable pub resolve_head : Exec W (RootDoc × ℕ)
  resolve_head = do
    hint ← hint_generation
    doc ← start_at hint
    forward probe_cap doc doc.generation 1
