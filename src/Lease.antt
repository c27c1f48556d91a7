-- ===== src/Lease.antt =====
-- lease.py, and the lease states of models.py. Times are in whole units; `json.dumps` and what
-- `json.loads` accepts of a lease body are a parameter. `self._etag` is passed and returned.
pub mod Exclusion
use ducklake_serverless.Base.{
  ℕ, zero, suc, ◌+◌, ◌-◌, Text, Bytes, text, text_eq, ◌++◌, Option, none, some, List, [], ◌∷◌, Bool,
  true, false, not, ◌&&◌, ltb, if◌then◌else◌,
}
use ducklake_serverless.Errors.{
  Error, Result, ok, err, object_not_found, precondition_failed, conditional_conflict, out_of_fuel,
  Exec, pure, raise, lift, handle, absent_or, ◌>>=◌, ◌>>◌,
}
use ducklake_serverless.Store.{ObjectStore, GetResult}

-- What is left of the lease, which is 0 once it has expired.
pub record Observed : Type 0 where
  pub holder : Text
  pub seconds_left : ℕ
  pub etag : Text

pub data LeaseState : Type 0 where
  vacant : LeaseState
  acquirable : Text → LeaseState
  held_by_other : ℕ → LeaseState

unfoldable pub classify_lease : Option Observed → Text → LeaseState
classify_lease none holder_id = vacant
classify_lease (some observed) holder_id =
    if not (text_eq observed.holder holder_id) && ltb 0 observed.seconds_left
    then held_by_other observed.seconds_left
    else acquirable observed.etag

-- The holder, its ttl, and the expiry by the holder's clock.
pub record LeaseBody : Type 0 where
  pub holder : Text
  pub ttl : ℕ
  pub expires_at : ℕ

pub record LeaseJson : Type 0 where
  pub dumps : LeaseBody → Bytes
  pub loads : Bytes → Option LeaseBody

-- A malformed body reads as expired and without an owner.
abbrev pub parsed : Option LeaseBody → LeaseBody
parsed none = record { holder = text "<corrupt>"; ttl = 0; expires_at = 0 }
parsed (some b) = b

pub record Lease (W : Type 0) : Type 0 where
  pub store : ObjectStore W
  pub json : LeaseJson
  pub holder : Text
  pub key : Text
  pub ttl : ℕ
  -- `time.time()` and `str(uuid.uuid4())`.
  pub local_time : Exec W ℕ
  pub uuid4 : Exec W Text

module _ {W : Type 0} (lease : Lease W) where
  unfoldable pub lease_body : ℕ → Exec W Bytes
  lease_body effective = do
    now ← lease.local_time
    pure (
        lease.json.dumps
          (record { holder = lease.holder; ttl = effective; expires_at = now + effective }))

  -- Without times of the store, the expiry is by the holder's clock.
  abbrev pub degraded : LeaseBody → Text → Exec W (Option Observed)
  degraded body etag = do
    now ← lease.local_time
    pure (some (record { holder = body.holder; seconds_left = body.expires_at - now; etag = etag }))

  -- `try: … finally: delete`
  abbrev pub then_delete : Text → Result GetResult → Exec W GetResult
  then_delete probe_key r = lease.store.delete probe_key >> lift r

  abbrev pub left_at : LeaseBody → Text → ℕ → Option ℕ → Exec W (Option Observed)
  left_at body etag modified none = degraded body etag
  left_at body etag modified (some now) = pure (
      some (record { holder = body.holder; seconds_left = modified + body.ttl - now; etag = etag }))

  abbrev pub since : LeaseBody → Text → Option ℕ → Exec W (Option Observed)
  since body etag none = degraded body etag
  since body etag (some modified) = do
    u ← lease.uuid4
    let probe_key = lease.key ++ (text ".now-probe-" ++ u)
    lease.store.put_if_absent probe_key (text "t")
    probe ← handle (lease.store.get probe_key) (then_delete probe_key)
    left_at body etag modified probe.last_modified

  unfoldable pub observe : Exec W (Option Observed)
  observe = handle (lease.store.get lease.key) (
      absent_or (pure none) λ current.
        since (parsed (lease.json.loads current.body)) current.etag current.last_modified)

  -- A lost takeover race.
  abbrev pub taken_over : Option Text → Result Text → Exec W (Bool × Option Text)
  taken_over kept (ok etag) = pure (true, some etag)
  taken_over kept (err precondition_failed) = pure (false, kept)
  taken_over kept (err conditional_conflict) = pure (false, kept)
  taken_over kept (err object_not_found) = pure (false, kept)
  taken_over kept (err e) = raise e

  abbrev pub after_classify :
      Exec W (Bool × Option Text) → Option Text → LeaseState → Exec W (Bool × Option Text)
  after_classify again kept vacant = again
  after_classify again kept (held_by_other left) = pure (false, kept)
  after_classify again kept (acquirable etag) = do
    body ← lease_body lease.ttl
    handle (lease.store.put_if_match lease.key body etag) (taken_over kept)

  abbrev pub after_create : Exec W (Bool × Option Text) → Result Text → Exec W (Bool × Option Text)
  after_create refused (ok etag) = pure (true, some etag)
  after_create refused (err precondition_failed) = refused
  after_create refused (err e) = raise e

  -- The call of itself, after a release between the two calls, is on fuel.
  unfoldable pub acquire : ℕ → Option Text → Exec W (Bool × Option Text)
  acquire zero kept w = (err out_of_fuel, w)
  acquire (suc n) kept w =
      (do
        body ← lease_body lease.ttl
        handle (lease.store.put_if_absent lease.key body) (
            after_create (do
              observed ← observe
              after_classify (λ u. acquire n kept u) kept (classify_lease observed lease.holder))))
        w

  unfoldable pub renew : Option Text → Exec W (Bool × Option Text)
  renew none = pure (false, none)
  renew (some etag) = do
    body ← lease_body lease.ttl
    handle (lease.store.put_if_match lease.key body etag) (taken_over none)

  -- `contextlib.suppress`: a successor already took over.
  abbrev pub released : Result Text → Exec W (Option Text)
  released (ok etag) = pure none
  released (err precondition_failed) = pure none
  released (err conditional_conflict) = pure none
  released (err object_not_found) = pure none
  released (err e) = raise e

  unfoldable pub release : Option Text → Exec W (Option Text)
  release none = pure none
  release (some etag) = do
    body ← lease_body 0
    handle (lease.store.put_if_match lease.key body etag) released
