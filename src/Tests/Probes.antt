-- ===== src/Tests/Probes.antt =====
-- The probe on a store in memory, and on one where the last writer wins.
use ducklake_serverless.Base.{◌≡◌, inl, refl, [], ◌∷◌, none, some, true, false}
use ducklake_serverless.Errors.{ok, Exec, Post, returned, raised}
use ducklake_serverless.Models.Keys.{Uuid}
use ducklake_serverless.Store.{ObjectStore}
use ducklake_serverless.Store.Memory.{
  InMemoryObjectStore, Stored, new_store, in_memory, lookup, write_object,
}
use ducklake_serverless.Store.Memory.Protocol.{lookup-set_object}
use ducklake_serverless.Store.Probe.{create_key, probe_atomic_create}
use ducklake_serverless.Store.Probe.Decides.{
  IsAtomic, probe_atomic_create_accepts, probe_atomic_create_refuses,
}
use ducklake_serverless.Tests.Keys.{some_uuid}
use ducklake_serverless.Tests.Lake.{clock}

abbrev uuid4 : Exec InMemoryObjectStore Uuid
uuid4 w = (ok some_uuid, w)

abbrev memory : ObjectStore InMemoryObjectStore
memory = in_memory clock

abbrev Free : Uuid → InMemoryObjectStore → Type 0
Free u w = lookup w.objects (create_key memory uuid4 u) ≡ none

abbrev Taken : Uuid → InMemoryObjectStore → Type 0
Taken u w = (v : Stored) × (lookup w.objects (create_key memory uuid4 u) ≡ some v)

nothing-Free : Free some_uuid new_store
unfolding lookup
nothing-Free = refl

memory-IsAtomic : (u : Uuid) → IsAtomic memory (Free u) (Taken u) (create_key memory uuid4 u)
unfolding write_object lookup in_memory
memory-IsAtomic u = record {
  first_law = λ body w free.
      rw free (returned (_, lookup-set_object (create_key memory uuid4 u) _ w.objects));
  later_law = λ body w (v, there). rw there (raised ((v, there), inl refl));
}

probe_atomic_create_accepts_example :
    Post (λ b _. b ≡ true) (λ _ _. ⊥) (probe_atomic_create memory uuid4 (0 ∷ 1 ∷ 2 ∷ []) new_store)
unfolding in_memory
probe_atomic_create_accepts_example =
    probe_atomic_create_accepts memory uuid4 (λ key w. returned tt) Free Taken memory-IsAtomic 0
      (1 ∷ 2 ∷ []) new_store (returned nothing-Free)

abbrev last_wins : ObjectStore InMemoryObjectStore
last_wins = record memory { put_if_absent = memory.put }

probe_atomic_create_refuses_example :
    Post
      (λ b _. b ≡ false)
      (λ _ _. ⊥)
      (probe_atomic_create last_wins uuid4 (0 ∷ 1 ∷ 2 ∷ []) new_store)
unfolding in_memory write_object
probe_atomic_create_refuses_example =
    probe_atomic_create_refuses last_wins uuid4 (λ key w. returned tt) (λ u body w. returned tt) 0 1
      (2 ∷ []) new_store (returned tt)
