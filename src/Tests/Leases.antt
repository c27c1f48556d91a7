-- ===== src/Tests/Leases.antt =====
-- Leases in memory: the clock of the store counts the writes.
use ducklake_serverless.Base.{
  ℕ, ◌≡◌, ◌≢◌, ◌⊎◌, inl, refl, arith, Bytes, text, text_eq, text_eq_iff, Option, none, some, [],
  ◌∷◌, true, false,
}
use ducklake_serverless.Errors.{Post, returned, raised}
use ducklake_serverless.Store.Memory.{InMemoryObjectStore, Stored, lookup, in_memory}
use ducklake_serverless.Lease.{LeaseBody, LeaseJson, Lease, acquire, renew, release}
use ducklake_serverless.Lease.Exclusion.{
  IsRefused, memory_lease, release_spares_successor, acquire_refuses_live, our_body,
  acquire_takes_expired,
}

abbrev write_body : LeaseBody → Bytes
write_body b = b.ttl ∷ b.expires_at ∷ b.holder

abbrev read_body : Bytes → Option LeaseBody
read_body [] = none
read_body (ttl ∷ []) = none
read_body (ttl ∷ expires_at ∷ holder) =
    some (record { holder = holder; ttl = ttl; expires_at = expires_at })

abbrev json : LeaseJson
json = record { dumps = write_body; loads = read_body }

-- The clock of the store: the number of the write.
abbrev clock : ℕ → ℕ
clock n = n

-- Written at 10, for 30 units.
abbrev other_body : LeaseBody
other_body = record { holder = text "a"; ttl = 30; expires_at = 0 }

abbrev stored : Stored
stored = record { body = write_body other_body; etag = text "e"; written = 10 }

abbrev store_at : ℕ → InMemoryObjectStore
store_at n = record { objects = (text "k", stored) ∷ []; etag_counter = n }

abbrev ours : Lease InMemoryObjectStore
ours = memory_lease clock json (text "b") (text "k") 30 0 (text "u")

-- The lease is there, with another ETag than the one that is kept.
abbrev Theirs : InMemoryObjectStore → Type 0
Theirs s = lookup s.objects (text "k") ≡ some stored

never_lands :
    (body : Bytes) (s : InMemoryObjectStore)
    → Theirs s
    → Post
        (λ _ _. ⊥)
        (λ e s'. Theirs s' × (IsRefused e ⊎ ⊥))
        (ours.store.put_if_match (text "k") body (text "old") s)
unfolding in_memory text_eq
never_lands body s there = rw there (raised (there, inl (inl refl)))

release_spares_successor_example :
    Post
      (λ r s. Theirs s × (r ≡ none))
      (λ e s. Theirs s × ⊥)
      (release ours (some (text "old")) (store_at 12))
    × Post
        (λ r s. Theirs s × (r ≡ (false, none)))
        (λ e s. Theirs s × ⊥)
        (renew ours (some (text "old")) (store_at 12))
release_spares_successor_example =
    release_spares_successor ours Theirs (λ e. ⊥) (text "old") (λ s t. returned t) never_lands
      (store_at 12) (unfold lookup text_eq in refl)

names_differ : text "a" ≢ text "b"
unfolding text_eq
names_differ e = absurd (cc ((text_eq_iff (text "a") (text "b")).1 e))

acquire_refuses_live_example :
    Post
      (λ r s. (r ≡ (false, none)) × (lookup s.objects (text "k") ≡ some stored))
      (λ _ _. ⊥)
      (acquire (memory_lease clock json (text "b") (text "k") 30 0 (text "u")) 1 none (store_at 20))
acquire_refuses_live_example =
    acquire_refuses_live clock json (text "b") (text "k") 30 0 (text "u") (store_at 20) stored
      other_body 0 none (unfold lookup text_eq in (refl, refl)) (unfold lookup text_eq in refl)
      names_differ (omega arith)

acquire_takes_expired_example :
    Post
      (λ r s.
        (v : Stored) × (r ≡ (true, some v.etag))
        × (v.body ≡ write_body (our_body clock json (text "b") (text "k") 30 0 (text "u")))
        × (lookup s.objects (text "k") ≡ some v))
      (λ _ _. ⊥)
      (acquire (memory_lease clock json (text "b") (text "k") 30 0 (text "u")) 1 none (store_at 50))
acquire_takes_expired_example =
    acquire_takes_expired clock json (text "b") (text "k") 30 0 (text "u") (store_at 50) stored
      other_body 0 none (unfold lookup text_eq in (refl, refl)) (unfold lookup text_eq in refl)
      (omega arith)
