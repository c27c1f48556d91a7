-- ===== src/Chunk/Transfer/Keeps.antt =====
-- Packs on their way to the store leave the markers alone, and every retry ends.
use ducklake_serverless.Base.{
  ℕ, zero, suc, ◌≡◌, ◌≢◌, ◌⊎◌, inl, inr, ap, arith, Text, Bytes, text_eq, text_eq_iff, Option, none,
  some, Option-cases, List, [], ◌∷◌, ◌++◌, map, Bool-cases, strip_prefix, strip_prefix-eq-some, ltb,
  All,
}
use ducklake_serverless.Errors.{
  Error, Result, ok, err, external_service, input_validation, precondition_failed,
  conditional_conflict, ambiguous_cas, out_of_fuel, Exec, pure, raise, absent_or, Post, returned,
  raised,
}
use ducklake_serverless.Models.Keys.{marker_text}
use ducklake_serverless.Models.RootDoc.{JsonBytes}
use ducklake_serverless.Store.{ObjectStore, ObjectMeta}
use ducklake_serverless.Store.Markers.{Later, IsNoMarker, KeepsMarkers}
use ducklake_serverless.Store.Keeps.{
  Fallen, Keeps, pure-Keeps, raise-Keeps, bind-Keeps, handle-Keeps, absent_or-Keeps, lift-Keeps,
  get-Keeps, head-Keeps, put-Keeps, create-Keeps,
}
use ducklake_serverless.Root.Reading.{Later-trans}
use ducklake_serverless.Chunk.Manifest.{
  Manifest, ManifestJson, packs_prefix, format_pack_key, parse_pack_key, pack_keys, is_sha256_hex,
  from_bytes, max_manifest_bytes, manifest_magic,
}
use ducklake_serverless.Chunk.Build.{Pack}
use ducklake_serverless.Chunk.Transfer.{
  first_failure, run_all, settle_pack, put_pack_rounds, put_pack, publish_packs, settle_refresh,
  refresh, check_pack, check, distinct, novel_get, verify_packs, load_manifest, put_attempts,
  refresh_put_attempts,
}

module _ {W : Type 0} (json : JsonBytes) (body_at : W → Text → Option Bytes) {Fails : Type 0}
    (store : ObjectStore W) (laws : KeepsMarkers json body_at store Fails) where
  packs-IsNoMarker : (rest : Text) → IsNoMarker json body_at (packs_prefix ++ rest)
  unfolding text_eq
  packs-IsNoMarker rest g e = absurd (cc ((text_eq_iff (packs_prefix ++ rest) (marker_text g)).1 e))

  -- What the tasks raise, one or the other, is not for want of fuel.
  second-Keeps :
      (w v : W) (r : Result (Unit {0})) (m : Result (Unit {0}) × W)
      → r ≢ err out_of_fuel
      → Later json body_at w v
      → Post (λ _ u. Later json body_at v u) (Fallen json body_at v) m
      → Post
          (λ _ u. Later json body_at w u)
          (Fallen json body_at w)
          (first_failure store r m.0, m.1)
  second-Keeps w v (ok a) m n l (returned l') = returned (Later-trans json body_at l l')
  second-Keeps w v (ok a) m n l (raised h) = raised (Later-trans json body_at l h.0, h.1)
  second-Keeps w v (err e) m n l (returned l') =
      raised (Later-trans json body_at l l', λ same. n (ap err same))
  second-Keeps w v (err e) m n l (raised h) =
      raised (Later-trans json body_at l h.0, λ same. n (ap err same))

  first-Keeps :
      (w : W) (m : Result (Unit {0}) × W) (rest : Exec W (Unit {0}))
      → Keeps json body_at rest
      → Post (λ _ u. Later json body_at w u) (Fallen json body_at w) m
      → Post
          (λ _ u. Later json body_at w u)
          (Fallen json body_at w)
          (first_failure store m.0 (rest m.1).0, (rest m.1).1)
  first-Keeps w m rest k (returned {a = a} {w = v} l) =
      second-Keeps w v (ok a) (rest v) (λ e. absurd (cc e)) l (k v l.dense)
  first-Keeps w m rest k (raised {e = e} {w = v} h) =
      second-Keeps w v (err e) (rest v) (λ same. h.1 (cc same)) h.0 (k v h.0.dense)

  run_all-Keeps :
      (tasks : List (Exec W (Unit {0})))
      → All (Keeps json body_at) tasks
      → Keeps json body_at (run_all store tasks)
  unfolding run_all
  run_all-Keeps [] h = pure-Keeps json body_at tt
  run_all-Keeps (task ∷ tasks) h =
      λ w d. first-Keeps w (task w) (run_all store tasks) (run_all-Keeps tasks h.1) (h.0 w d)

  settle_pack-Keeps :
      (key : Text) (retry : Exec W (Unit {0})) (e : Error)
      → e ≢ out_of_fuel
      → Keeps json body_at retry
      → Keeps json body_at (settle_pack store key retry (err e))
  settle_pack-Keeps key retry precondition_failed n k = pure-Keeps json body_at tt
  settle_pack-Keeps key retry conditional_conflict n k = pure-Keeps json body_at tt
  settle_pack-Keeps key retry ambiguous_cas n k =
      handle-Keeps json body_at (store.head_meta key) (absent_or retry (λ _. pure tt))
        (head-Keeps json body_at store laws key) (λ m. pure-Keeps json body_at tt)
        (λ e n'. absent_or-Keeps json body_at {A = ObjectMeta} retry (λ _. pure tt) e n' k)
  settle_pack-Keeps key retry e n k = raise-Keeps json body_at e n

  put_pack_rounds-Keeps :
      (n : ℕ) (rest body : Bytes)
      → Keeps json body_at (put_pack_rounds store n (packs_prefix ++ rest) body)
  unfolding put_pack_rounds
  put_pack_rounds-Keeps zero rest body = raise-Keeps json body_at external_service (λ e. cc e)
  put_pack_rounds-Keeps (suc n) rest body =
      handle-Keeps json body_at (store.put_if_absent (packs_prefix ++ rest) body)
        (settle_pack store (packs_prefix ++ rest)
          (λ w. put_pack_rounds store n (packs_prefix ++ rest) body w))
        (create-Keeps json body_at store laws (packs_prefix ++ rest) body (packs-IsNoMarker rest))
        (λ etag. pure-Keeps json body_at tt)
        λ e k. settle_pack-Keeps (packs_prefix ++ rest) _ e k (put_pack_rounds-Keeps n rest body)

  pub publish_packs-Keeps : (packs : List Pack) → Keeps json body_at (publish_packs store packs)
  unfolding publish_packs put_pack format_pack_key
  publish_packs-Keeps packs = run_all-Keeps _ (each packs)
    where
      each :
          (ps : List Pack)
          → All
              (Keeps json body_at)
              (map (λ (p : Pack). put_pack store p.pack_sha256 p.pack_bytes) ps)
      each [] = tt
      each (p ∷ ps) = (put_pack_rounds-Keeps put_attempts p.pack_sha256 p.pack_bytes, each ps)

  settle_refresh-Keeps :
      (left : ℕ) (retry : Exec W (Unit {0})) (e : Error)
      → e ≢ out_of_fuel
      → Keeps json body_at retry
      → Keeps json body_at (settle_refresh store left retry (err e))
  settle_refresh-Keeps zero retry external_service n k = raise-Keeps json body_at external_service n
  settle_refresh-Keeps (suc left) retry external_service n k = k
  settle_refresh-Keeps left retry e n k = raise-Keeps json body_at e n

  refresh-Keeps :
      (n : ℕ) (rest body : Bytes) → Keeps json body_at (refresh store n (packs_prefix ++ rest) body)
  unfolding refresh
  refresh-Keeps zero rest body = pure-Keeps json body_at tt
  refresh-Keeps (suc n) rest body =
      handle-Keeps json body_at (store.put (packs_prefix ++ rest) body)
        (settle_refresh store n (λ w. refresh store n (packs_prefix ++ rest) body w))
        (put-Keeps json body_at store laws (packs_prefix ++ rest) body (packs-IsNoMarker rest))
        (λ etag. refreshed n) λ e k. settle_refresh-Keeps n _ e k (refresh-Keeps n rest body)
    where
      refreshed :
          (left : ℕ)
          → Keeps json body_at (
              settle_refresh store left
                (λ w. refresh store n (packs_prefix ++ rest) body w)
                (ok []))
      refreshed left = pure-Keeps json body_at tt

  check_pack-Keeps :
      (sha256 : Bytes → Text) (rest sha : Text) (o : Option Bytes)
      → Keeps json body_at (check_pack store sha256 (packs_prefix ++ rest) sha o)
  check_pack-Keeps sha256 rest sha (some body) = elim (Bool-cases (text_eq (sha256 body) sha)) [
    | inl same ↦ rw same (refresh-Keeps refresh_put_attempts rest body)
    | inr other ↦ rw other (raise-Keeps json body_at external_service (λ e. cc e))
  ]
  check_pack-Keeps sha256 rest sha none =
      handle-Keeps json body_at (store.head_meta (packs_prefix ++ rest))
        (absent_or (raise external_service) (λ _. pure tt))
        (head-Keeps json body_at store laws (packs_prefix ++ rest))
        (λ m. pure-Keeps json body_at tt)
        λ e n.
          absent_or-Keeps json body_at {A = ObjectMeta} (raise external_service) (λ _. pure tt) e n
            (raise-Keeps json body_at external_service (λ e'. cc e'))

  pub parse_pack_key-cases :
      (key : Text)
      → (parse_pack_key key ≡ err input_validation)
        ⊎ ((rest : Text) × (key ≡ packs_prefix ++ rest) × (parse_pack_key key ≡ ok rest))
  unfolding parse_pack_key
  parse_pack_key-cases key = elim (Option-cases (strip_prefix packs_prefix key)) [
    | inl other ↦ inl (ground (arith, other))
    | inr (rest, there) ↦ elim (Bool-cases (is_sha256_hex rest)) [
      | inl hex ↦
          inr (rest, strip_prefix-eq-some packs_prefix key rest there, ground (arith, there, hex))
      | inr bad ↦ inl (ground (arith, there, bad))
    ]
  ]

  check-Keeps :
      (sha256 : Bytes → Text) (novel : List Pack) (key : Text)
      → Keeps json body_at (check store sha256 novel key)
  unfolding check
  check-Keeps sha256 novel key = elim (parse_pack_key-cases key) [
    | inl bad ↦ rw bad (raise-Keeps json body_at input_validation (λ e. cc e))
    | inr (rest, is, parsed) ↦
        rw (parsed, is) (check_pack-Keeps sha256 rest rest (novel_get rest novel))
  ]

  pub verify_packs-Keeps :
      (sha256 : Bytes → Text) (manifest : Manifest) (novel : List Pack)
      → Keeps json body_at (verify_packs store sha256 manifest novel)
  unfolding verify_packs
  verify_packs-Keeps sha256 manifest novel = run_all-Keeps _ (each (distinct (pack_keys manifest)))
    where
      each : (keys : List Text) → All (Keeps json body_at) (map (check store sha256 novel) keys)
      each [] = tt
      each (key ∷ keys) = (check-Keeps sha256 novel key, each keys)

  from_bytes-fails :
      (mjson : ManifestJson) (bytes : Bytes) → from_bytes mjson bytes ≢ err out_of_fuel
  unfolding from_bytes
  from_bytes-fails mjson bytes e = elim (Option-cases (strip_prefix manifest_magic bytes)) [
    | inl other ↦ ground (arith, other, e)
    | inr (rest, there) ↦ elim (Option-cases (mjson.validate rest)) [
      | inl bad ↦ ground (arith, there, bad, e)
      | inr (m, good) ↦ ground (arith, there, good, e)
    ]
  ]

  pub load_manifest-Keeps :
      (mjson : ManifestJson) (key : Text) → Keeps json body_at (load_manifest store mjson key)
  unfolding load_manifest
  load_manifest-Keeps mjson key =
      bind-Keeps json body_at (store.head_meta key) _ (head-Keeps json body_at store laws key)
        λ meta. elim (Bool-cases (ltb max_manifest_bytes meta.size)) [
          | inl large ↦ rw large (raise-Keeps json body_at input_validation (λ e. cc e))
          | inr fits ↦ rw fits (
              bind-Keeps json body_at (store.get key) _ (get-Keeps json body_at store laws key) λ r.
                lift-Keeps json body_at (from_bytes mjson r.body) (from_bytes-fails mjson r.body))
        ]
