-- ===== src/Lease/Exclusion.antt =====
-- What a lease excludes: a live lease refuses others, an expired one is taken, and who has lost a
-- lease cannot renew or release it. The first two are for the in-memory store, whose clock gives
-- the time of each write by its number; `local_time` and `uuid4` answer the same each time there,
-- and no one else writes between the calls.
use ducklake_serverless.Base.{
  ℕ, suc, ◌+◌, ◌-◌, ◌<◌, ◌≤◌, ◌≡◌, ◌≢◌, ◌↔◌, ◌⊎◌, inl, inr, refl, Bytes, ap, ◌∙◌, arith, Text, text,
  text_eq_iff, text_eq_refl, Option, none, some, ◌++◌, length, length-append, true, false,
}
use ducklake_serverless.Errors.{
  Error, ok, err, precondition_failed, conditional_conflict, object_not_found, Post, returned,
  raised, Post-bind, Post-handle,
}
use ducklake_serverless.Store.Memory.{
  InMemoryObjectStore, Stored, lookup, write_object, next_etag, in_memory,
}
use ducklake_serverless.Store.Memory.Protocol.{
  lookup-set_object, lookup-set_object_other, lookup-pop_object_other, differs,
}
use ducklake_serverless.Lease.{
  Observed, acquirable, held_by_other, classify_lease, LeaseBody, LeaseJson, Lease, lease_body,
  observe, acquire, taken_over, renew, released, release,
}

-- Someone else's lease with `left` to go.
abbrev Held : Option Observed → Text → ℕ → Type 0
Held none holder_id left = ⊥
Held (some o) holder_id left = (o.holder ≢ holder_id) × (0 < left) × (left ≡ o.seconds_left)

classify_lease_refuses :
    (o : Option Observed) (holder_id : Text) (left : ℕ)
    → (classify_lease o holder_id ≡ held_by_other left) ↔ Held o holder_id left
unfolding classify_lease
classify_lease_refuses none holder_id left = (λ e. absurd (cc e), λ h. absurd h)
classify_lease_refuses (some o) holder_id left = (
  λ e. ground (arith, text_eq_iff o.holder holder_id),
  λ h. rw (differs o.holder o.holder holder_id refl h.0) (ground (arith, h.1, h.2)),
)

-- The answers to a conditional write that say that someone else has written.
abbrev pub IsRefused : Error → Type 0
IsRefused e = (e ≡ precondition_failed) ⊎ (e ≡ conditional_conflict) ⊎ (e ≡ object_not_found)

module _ {W : Type 0} (lease : Lease W) (Theirs : W → Type 0) (Other : Error → Type 0) (etag : Text)
    (time_law : (w : W) → Theirs w → Post (λ _ w'. Theirs w') (λ _ _. ⊥) (lease.local_time w))
    (stale_law : (body : Bytes) (w : W)
      → Theirs w
      → Post
          (λ _ _. ⊥)
          (λ e w'. Theirs w' × (IsRefused e ⊎ Other e))
          (lease.store.put_if_match lease.key body etag w)) where
  released-Post :
      (e : Error) (w : W)
      → Theirs w
      → (IsRefused e ⊎ Other e)
      → Post
          (λ r w'. Theirs w' × (r ≡ none))
          (λ e w'. Theirs w' × Other e)
          (released lease (err e) w)
  released-Post precondition_failed w t h = returned (t, refl)
  released-Post conditional_conflict w t h = returned (t, refl)
  released-Post object_not_found w t h = returned (t, refl)
  released-Post e w t (inr other) = raised (t, other)
  released-Post e w t (inl (inl same)) = absurd (cc same)
  released-Post e w t (inl (inr (inl same))) = absurd (cc same)
  released-Post e w t (inl (inr (inr same))) = absurd (cc same)

  taken_over-Post :
      (e : Error) (w : W)
      → Theirs w
      → (IsRefused e ⊎ Other e)
      → Post
          (λ r w'. Theirs w' × (r ≡ (false, none)))
          (λ e w'. Theirs w' × Other e)
          (taken_over lease none (err e) w)
  taken_over-Post precondition_failed w t h = returned (t, refl)
  taken_over-Post conditional_conflict w t h = returned (t, refl)
  taken_over-Post object_not_found w t h = returned (t, refl)
  taken_over-Post e w t (inr other) = raised (t, other)
  taken_over-Post e w t (inl (inl same)) = absurd (cc same)
  taken_over-Post e w t (inl (inr (inl same))) = absurd (cc same)
  taken_over-Post e w t (inl (inr (inr same))) = absurd (cc same)

  -- Over any store that never lands a conditional write with the ETag that a holder keeps, since
  -- the lease is another's by now, that holder can neither renew nor release the lease: both end
  -- and leave it the other's. If the store answers 412, 409 or 404, `release` returns and forgets
  -- the ETag, and `renew` returns False and forgets it; any other error is raised, never taken for
  -- an answer. The holder's clock is taken to answer.
  pub release_spares_successor :
      (w : W)
      → Theirs w
      → Post
          (λ r w'. Theirs w' × (r ≡ none))
          (λ e w'. Theirs w' × Other e)
          (release lease (some etag) w)
        × Post
            (λ r w'. Theirs w' × (r ≡ (false, none)))
            (λ e w'. Theirs w' × Other e)
            (renew lease (some etag) w)
  unfolding release renew lease_body
  release_spares_successor w t = (
    Post-bind (Post-bind (time_law w t) (λ now u t'. returned t') λ e u x. absurd x)
        (λ body u t'.
          Post-handle (released lease) (stale_law body u t') (λ _ _ x. absurd x)
            λ e v h. released-Post e v h.0 h.1)
        λ e u x. absurd x,
    Post-bind (Post-bind (time_law w t) (λ now u t'. returned t') λ e u x. absurd x)
        (λ body u t'.
          Post-handle (taken_over lease none) (stale_law body u t') (λ _ _ x. absurd x)
            λ e v h. taken_over-Post e v h.0 h.1)
        λ e u x. absurd x,
  )

module _ (clock : ℕ → ℕ) (json : LeaseJson) (holder key : Text) (ttl local_now : ℕ)
    (probe_id : Text) where
  abbrev pub memory_lease : Lease InMemoryObjectStore
  memory_lease = record {
    store = in_memory clock;
    json = json;
    holder = holder;
    key = key;
    ttl = ttl;
    local_time = λ s. (ok local_now, s);
    uuid4 = λ s. (ok probe_id, s);
  }

  abbrev probe_key : Text
  probe_key = key ++ (text ".now-probe-" ++ probe_id)

  probe_key-differs : probe_key ≢ key
  probe_key-differs e = absurd (
      omega (
        arith,
        ap length e,
        length-append key (text ".now-probe-" ++ probe_id),
        length-append (text ".now-probe-") probe_id,
      ))

  -- The lease object in a store, with a body that can be read.
  abbrev pub IsLease : InMemoryObjectStore → Stored → LeaseBody → Type 0
  IsLease s v body = (lookup s.objects key ≡ some v) × (json.loads v.body ≡ some body)

  abbrev seen : InMemoryObjectStore → Stored → LeaseBody → Observed
  seen s v body = record {
    holder = body.holder;
    seconds_left = v.written + body.ttl - clock (s.etag_counter + 1);
    etag = v.etag;
  }

  expired-acquirable :
      (s : InMemoryObjectStore) (v : Stored) (body : LeaseBody)
      → v.written + body.ttl ≤ clock (s.etag_counter + 1)
      → classify_lease (some (seen s v body)) holder ≡ acquirable v.etag
  unfolding classify_lease
  expired-acquirable s v body expired = ground arith

  -- What `_observe` sees: the time left by the clock of the store, at the write of the probe.
  abbrev Sees :
      InMemoryObjectStore → Stored → LeaseBody → Option Observed → InMemoryObjectStore → Type 0
  Sees s v body o s' = (o ≡ some (seen s v body)) × (lookup s'.objects key ≡ some v)

  observe-Post :
      (s : InMemoryObjectStore) (v : Stored) (body : LeaseBody)
      → IsLease s v body
      → lookup s.objects probe_key ≡ none
      → Post (Sees s v body) (λ _ _. ⊥) (observe memory_lease s)
  unfolding observe in_memory write_object
  observe-Post s v body (there, readable) fresh =
      rw
        (
          there,
          readable,
          fresh,
          lookup-set_object probe_key
              (record {
                body = text "t";
                etag = next_etag (s.etag_counter + 1);
                written = clock (s.etag_counter + 1);
              })
              s.objects,
        )
        (returned (
          refl,
          (lookup-pop_object_other probe_key key _ probe_key-differs
              ∙ lookup-set_object_other probe_key key _ s.objects probe_key-differs
              ∙ there),
        ))

  -- Over the in-memory store, with a holder's clock and a probe UUID that are fixed and with no
  -- rival between the calls: if another holder's lease is there with a body that can be read, the
  -- key of the probe is free, and the lease has time left by the store's clock at the write of the probe, then
  -- `acquire` ends and returns False, keeps its ETag, and leaves the lease object as it is.
  pub acquire_refuses_live :
      (s : InMemoryObjectStore) (v : Stored) (body : LeaseBody) (n : ℕ) (kept : Option Text)
      → IsLease s v body
      → lookup s.objects probe_key ≡ none
      → body.holder ≢ holder
      → clock (s.etag_counter + 1) < v.written + body.ttl
      → Post
          (λ r s'. (r ≡ (false, kept)) × (lookup s'.objects key ≡ some v))
          (λ _ _. ⊥)
          (acquire memory_lease (suc n) kept s)
  unfolding acquire lease_body in_memory
  acquire_refuses_live s v body n kept here fresh other live = rw (here.0) (
      Post-bind (observe-Post s v body here fresh)
        (λ o s' h.
          rw
            (
              h.0,
              (classify_lease_refuses (some (seen s v body)) holder (seen s v body).seconds_left).1
                  (other, omega arith, refl),
            )
            (returned (refl, h.1)))
        λ e s' h. h)

  abbrev pub our_body : LeaseBody
  our_body = record { holder = holder; ttl = ttl; expires_at = local_now + ttl }

  abbrev taken : InMemoryObjectStore → Stored
  taken s = record {
    body = json.dumps our_body;
    etag = next_etag (s.etag_counter + 1);
    written = clock (s.etag_counter + 1);
  }

  -- Over the in-memory store, with a holder's clock and a probe UUID that are fixed and with no
  -- rival between the calls: if a lease is there with a body that can be read, the key of the
  -- probe is free, and the lease has expired by the store's clock at the write of the probe, then whoever had it,
  -- `acquire` ends and returns True, and the lease object has our body and the ETag that it
  -- keeps.
  pub acquire_takes_expired :
      (s : InMemoryObjectStore) (v : Stored) (body : LeaseBody) (n : ℕ) (kept : Option Text)
      → IsLease s v body
      → lookup s.objects probe_key ≡ none
      → v.written + body.ttl ≤ clock (s.etag_counter + 1)
      → Post
          (λ r s'.
            (v' : Stored) × (r ≡ (true, some v'.etag))
            × (v'.body ≡ json.dumps our_body)
            × (lookup s'.objects key ≡ some v'))
          (λ _ _. ⊥)
          (acquire memory_lease (suc n) kept s)
  unfolding acquire lease_body in_memory write_object
  acquire_takes_expired s v body n kept here fresh expired = rw (here.0) (
      Post-bind (observe-Post s v body here fresh)
        (λ o s' h.
          rw (h.0, expired-acquirable s v body expired, h.1, text_eq_refl v.etag)
            (returned (taken s', refl, refl, lookup-set_object key (taken s') s'.objects)))
        λ e s' h. h)
