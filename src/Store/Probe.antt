-- ===== src/Store/Probe.antt =====
-- objectstore.py, `Capabilities` to `probe_capabilities`, and `require_atomic_create` of commit.py:
-- which conditional writes a store enforces under concurrency. The contenders are a list, in the
-- order in which their requests take effect; there are six, and each is told by one digit.
pub mod Decides
use ducklake_serverless.Base.{
  ℕ, suc, ◌+◌, Text, Bytes, text, List, [], ◌∷◌, ◌++◌, Bool, ◌==◌, if◌then◌else◌,
}
use ducklake_serverless.Errors.{
  Result, ok, err, external_service, precondition_failed, conditional_conflict, backend_unsafe,
  Exec, pure, raise, ensuring, ◌>>=◌,
}
use ducklake_serverless.Models.Keys.{Uuid, uuid_text}
use ducklake_serverless.Store.{ObjectStore}

pub record Capabilities : Type 0 where
  pub atomic_create : Bool
  pub atomic_cas : Bool

abbrev pub can_host_lake : Capabilities → Bool
can_host_lake c = c.atomic_create

-- The lengths of the lists `wins` and `errors`.
pub record Tally : Type 0 where
  pub wins : ℕ
  pub errors : ℕ

-- The end of one `run`: a winner, a loser, or an error that makes the count worthless.
abbrev pub scored : Tally → Result Text → Tally
scored t (ok _) = record { wins = suc t.wins; errors = t.errors }
scored t (err precondition_failed) = t
scored t (err conditional_conflict) = t
scored t (err e) = record { wins = t.wins; errors = suc t.errors }

module _ {W : Type 0} where
  unfoldable pub contend : (ℕ → Exec W Text) → List ℕ → Tally → Exec W Tally
  contend attempt [] t w = (ok t, w)
  contend attempt (writer_id ∷ racers) t w =
      let (r, w') = attempt writer_id w in contend attempt racers (scored t r) w'

  unfoldable pub count_concurrent_winners : List ℕ → (ℕ → Exec W Text) → Exec W ℕ
  unfolding contend
  count_concurrent_winners racers attempt = do
    t ← contend attempt racers (record { wins = 0; errors = 0 })
    if t.errors == 0 then pure t.wins else raise external_service

module _ {W : Type 0} (store : ObjectStore W) (uuid4 : Exec W Uuid) where
  -- `f"w{writer_id}".encode()`
  abbrev pub writer_body : ℕ → Bytes
  writer_body writer_id = text "w" ++ (48 + writer_id) ∷ []

  unfoldable pub count_concurrent_create_winners : Text → List ℕ → Exec W ℕ
  unfolding count_concurrent_winners
  count_concurrent_create_winners key racers =
      count_concurrent_winners racers λ writer_id. store.put_if_absent key (writer_body writer_id)

  unfoldable pub count_concurrent_cas_winners : Text → List ℕ → Exec W ℕ
  unfolding count_concurrent_winners
  count_concurrent_cas_winners key racers = do
    etag ← store.put_if_absent key (text "seed")
    count_concurrent_winners racers λ writer_id. store.put_if_match key (writer_body writer_id) etag

  abbrev pub create_key : Uuid → Text
  create_key u = text "cap-probe/create-" ++ uuid_text u

  abbrev pub cas_key : Uuid → Text
  cas_key u = text "cap-probe/cas-" ++ uuid_text u

  unfoldable pub probe_atomic_create : List ℕ → Exec W Bool
  unfolding count_concurrent_create_winners
  probe_atomic_create racers = do
    u ← uuid4
    ensuring
        (do winners ← count_concurrent_create_winners (create_key u) racers; pure (winners == 1))
        (store.delete (create_key u))

  unfoldable pub probe_capabilities : List ℕ → Exec W Capabilities
  unfolding count_concurrent_create_winners count_concurrent_cas_winners
  probe_capabilities racers = do
    u ← uuid4
    v ← uuid4
    ensuring
        (do
          creates ← count_concurrent_create_winners (create_key u) racers
          swaps ← count_concurrent_cas_winners (cas_key v) racers
          pure (record { atomic_create = creates == 1; atomic_cas = swaps == 1 }))
        (do _ ← store.delete (create_key u); store.delete (cas_key v))

  abbrev pub six : List ℕ
  six = 0 ∷ 1 ∷ 2 ∷ 3 ∷ 4 ∷ 5 ∷ []

  -- The second probe is for the message of the refusal alone.
  unfoldable pub require_atomic_create : Exec W (Unit {0})
  unfolding probe_atomic_create probe_capabilities
  require_atomic_create = do
    atomic ← probe_atomic_create six
    if atomic then pure tt else do _ ← probe_capabilities six; raise backend_unsafe
