-- ===== src/Chunk/Transfer.antt =====
-- chunk.py, `put_pack` to `verify_packs` and `load_manifest`: packs on their way to the store. Packs
-- are sent one after the other; the source sends them in parallel, in no order that it relies on.
pub mod Keeps
use ducklake_serverless.Base.{
  ℕ, zero, suc, Text, Bytes, text_eq, Option, none, some, List, [], ◌∷◌, ltb, map, any,
  if◌then◌else◌,
}
use ducklake_serverless.Errors.{
  Result, ok, err, external_service, input_validation, precondition_failed, conditional_conflict,
  ambiguous_cas, Exec, pure, raise, lift, handle, absent_or, ◌>>=◌,
}
use ducklake_serverless.Store.{ObjectStore}
use ducklake_serverless.Chunk.Manifest.{
  Manifest, ManifestJson, format_pack_key, parse_pack_key, pack_keys, from_bytes,
  max_manifest_bytes,
}
use ducklake_serverless.Chunk.Build.{Pack}

-- `max_attempts` of `put_pack`, and `_REFRESH_PUT_ATTEMPTS`.
abbrev pub put_attempts : ℕ
put_attempts = 5

abbrev pub refresh_put_attempts : ℕ
refresh_put_attempts = 5

-- `set(…)`, by the last of equal elements.
unfoldable pub distinct : List Text → List Text
distinct [] = []
distinct (k ∷ ks) = let rest = distinct ks in if any (text_eq k) ks then rest else k ∷ rest

-- `dict(packs).get(sha)`: the last of equal keys.
unfoldable pub novel_get : Text → List Pack → Option Bytes
novel_get sha [] = none
novel_get sha (p ∷ ps) = elim (novel_get sha ps) [
  | some body ↦ some body
  | none ↦ if text_eq p.pack_sha256 sha then some p.pack_bytes else none
]

module _ {W : Type 0} (store : ObjectStore W) where
  -- Every task runs; then the first failure, in the order of the list, is raised.
  abbrev pub first_failure : Result (Unit {0}) → Result (Unit {0}) → Result (Unit {0})
  first_failure (err e) _ = err e
  first_failure (ok _) r = r

  unfoldable pub run_all : List (Exec W (Unit {0})) → Exec W (Unit {0})
  run_all [] w = (ok tt, w)
  run_all (task ∷ tasks) w =
      let (r, w₁) = task w in let (s, w₂) = run_all tasks w₁ in (first_failure r s, w₂)

  -- The outcomes of one create-only PUT of a pack: a twin's bytes are the same bytes.
  abbrev pub settle_pack : Text → Exec W (Unit {0}) → Result Text → Exec W (Unit {0})
  settle_pack key retry (ok _) = pure tt
  settle_pack key retry (err precondition_failed) = pure tt
  settle_pack key retry (err conditional_conflict) = pure tt
  settle_pack key retry (err ambiguous_cas) =
      handle (store.head_meta key) (absent_or retry (λ _. pure tt))
  settle_pack key retry (err e) = raise e

  -- `for _ in range(max_attempts)`
  unfoldable pub put_pack_rounds : ℕ → Text → Bytes → Exec W (Unit {0})
  put_pack_rounds zero key body w = (err external_service, w)
  put_pack_rounds (suc n) key body w =
      handle (store.put_if_absent key body) (settle_pack key (λ w'. put_pack_rounds n key body w'))
        w

  unfoldable pub put_pack : Text → Bytes → Exec W (Unit {0})
  unfolding put_pack_rounds
  put_pack sha body = put_pack_rounds put_attempts (format_pack_key sha) body

  unfoldable pub publish_packs : List Pack → Exec W (Unit {0})
  unfolding run_all put_pack
  publish_packs packs = run_all (map (λ (p : Pack). put_pack p.pack_sha256 p.pack_bytes) packs)

  -- A transient failure is retried while attempts are left.
  abbrev pub settle_refresh : ℕ → Exec W (Unit {0}) → Result Text → Exec W (Unit {0})
  settle_refresh left retry (ok _) = pure tt
  settle_refresh zero retry (err external_service) = raise external_service
  settle_refresh (suc left) retry (err external_service) = retry
  settle_refresh left retry (err e) = raise e

  -- `for attempts_left in reversed(range(_REFRESH_PUT_ATTEMPTS))`
  unfoldable pub refresh : ℕ → Text → Bytes → Exec W (Unit {0})
  refresh zero key body w = (ok tt, w)
  refresh (suc attempts_left) key body w =
      handle (store.put key body)
        (settle_refresh attempts_left (λ w'. refresh attempts_left key body w')) w

  -- `check`, for a pack whose bytes are in hand and for one of the base.
  abbrev pub check_pack : (Bytes → Text) → Text → Text → Option Bytes → Exec W (Unit {0})
  check_pack sha256 key sha (some body) =
      if text_eq (sha256 body) sha
      then refresh refresh_put_attempts key body
      else raise external_service
  check_pack sha256 key sha none =
      handle (store.head_meta key) (absent_or (raise external_service) (λ _. pure tt))

  unfoldable pub check : (Bytes → Text) → List Pack → Text → Exec W (Unit {0})
  unfolding refresh novel_get
  check sha256 novel key = do
    sha ← lift (parse_pack_key key)
    check_pack sha256 key sha (novel_get sha novel)

  unfoldable pub verify_packs : (Bytes → Text) → Manifest → List Pack → Exec W (Unit {0})
  unfolding run_all check distinct
  verify_packs sha256 manifest novel =
      run_all (map (check sha256 novel) (distinct (pack_keys manifest)))

  unfoldable pub load_manifest : ManifestJson → Text → Exec W Manifest
  load_manifest json payload_key = do
    meta ← store.head_meta payload_key
    if ltb max_manifest_bytes meta.size
        then raise input_validation
        else do result ← store.get payload_key; lift (from_bytes json result.body)
