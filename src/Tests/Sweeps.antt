-- ===== src/Tests/Sweeps.antt =====
-- Two cycles over one pack, and a sweep of the payloads of the lake of two generations.
use ducklake_serverless.Base.{
  ◌<◌, ◌+◌, ◌≡◌, refl, sym, ◌∙◌, ap, inl, inr, ◌++◌, ◌%◌, ◌==◌, Bool-cases, length, Text, text,
  text_eq, Option, none, some, List, [], ◌∷◌, false, All, dict_get, dict_set, dict_pop,
}
use ducklake_serverless.Errors.{ok, Post, returned, raised, Post-weaken}
use ducklake_serverless.Models.Keys.{payload_text}
use ducklake_serverless.Store.{ObjectMeta}
use ducklake_serverless.Store.Memory.{InMemoryObjectStore, Objects, in_memory, pop_object}
use ducklake_serverless.Lease.{Lease, renew}
use ducklake_serverless.Gc.Decide.{
  SweepActions, sweep_actions, decide_pack_sweep, default_max_delete_fraction, cold_get, member,
  marked_of, committed_refs_of, listed_from, put_meta, is_young, fate, sweep_items, trips_breaker,
}
use ducklake_serverless.Gc.Deletes.{away, keep_lease, must_renew, renew_held, renew_every}
use ducklake_serverless.Gc.Collect.{Collector, next_ledger, sweep_catalogs}
use ducklake_serverless.Gc.Collect.Cycles.{decide_pack_sweep-next_ledger}
use ducklake_serverless.Gc.Collect.Spares.{IsSwept, Reports, sweep_catalogs_spares}
use ducklake_serverless.Tests.Json.{codec}
use ducklake_serverless.Tests.Keys.{ascii, doc_of, some_uuid}
use ducklake_serverless.Tests.Lake.{clock, two_generations}

abbrev cold_pack : Text
cold_pack = text "packs/a"

abbrev first_plan : SweepActions
first_plan = record { marked = []; tombstone = cold_pack ∷ []; resurrect = []; delete = [] }

abbrev second_plan : SweepActions
second_plan = record { marked = []; tombstone = []; resurrect = []; delete = cold_pack ∷ [] }

abbrev metas : List ObjectMeta
metas = record { key = cold_pack; size = 3; last_modified = some 50 } ∷ []

second_cycle :
    decide_pack_sweep [] metas
      (next_ledger first_plan (cold_pack ∷ []) 100 [])
      300
      10
      default_max_delete_fraction
    ≡ sweep_actions second_plan
unfolding decide_pack_sweep next_ledger dict_get dict_set dict_pop cold_get member marked_of
    committed_refs_of listed_from put_meta is_young fate sweep_items trips_breaker text_eq
second_cycle = refl

decide_pack_sweep-next_ledger_example : 100 + 10 < 300
decide_pack_sweep-next_ledger_example =
    decide_pack_sweep-next_ledger first_plan (cold_pack ∷ []) 100 [] cold_pack [] metas 300 10
      default_max_delete_fraction second_plan (unfold cold_get in refl) second_cycle (inl refl)

abbrev lease : Lease InMemoryObjectStore
lease = record {
  store = in_memory clock;
  json = record { dumps = λ body. []; loads = λ bytes. none };
  holder = text "a";
  key = text "gc/lease";
  ttl = 300;
  local_time = λ w. (ok 0, w);
  uuid4 = λ w. (ok (text "u"), w);
}

abbrev collector : Collector InMemoryObjectStore
collector = record {
  store = in_memory clock;
  json = codec.0;
  manifest_json = record { dump = λ m. []; validate = λ b. none };
  ledger_json = record { dump = λ c. []; validate = λ b. none };
  decimal = ascii;
  lease = lease;
}

abbrev popped : List Text → Objects → Objects
popped [] objects = objects
popped (key ∷ keys) objects = popped keys (pop_object key objects)

popped-append :
    (keys : List Text) (key : Text) (objects : Objects)
    → popped (keys ++ key ∷ []) objects ≡ pop_object key (popped keys objects)
popped-append [] key objects = refl
popped-append (k ∷ keys) key objects = popped-append keys key (pop_object k objects)

-- The objects at the start, without those that were deleted. No lease is held.
abbrev JustDeleted : List Text → InMemoryObjectStore × Option Text → Type 0
JustDeleted done w = (w.1 ≡ none) × (w.0.objects ≡ popped done two_generations.objects)

abbrev payloads : List Text
payloads = payload_text 0 some_uuid ∷ payload_text 1 some_uuid ∷ text "payload/notes" ∷ []

abbrev Gone : Text → Type 0
Gone = IsSwept collector false 10 (doc_of 1) (payload_text 1 some_uuid) 1 JustDeleted

delete_gone :
    (key : Text) (done : List Text) (w : InMemoryObjectStore × Option Text)
    → JustDeleted done w
    → Post
        (λ _ w'. JustDeleted (done ++ key ∷ []) w')
        (λ _ w'. ⊥)
        (away ((in_memory clock).delete key) w)
unfolding in_memory
delete_gone key done w h =
    returned (h.0, ap (pop_object key) h.1 ∙ sym (popped-append done key two_generations.objects))

-- Without an ETag nothing is renewed, and the sweep ends.
renew_none :
    (swept done : List Text) (w : InMemoryObjectStore × Option Text)
    → JustDeleted done w
    → Post
        (λ _ w'. JustDeleted done w')
        (λ _ w'. JustDeleted done w')
        (keep_lease collector.store lease 10 swept w)
unfolding keep_lease must_renew renew_held renew
renew_none swept done (s, held) h = elim (Bool-cases (length swept % renew_every == 0)) [
  | inl due ↦ rw (due, h.0) (raised (refl, h.1))
  | inr early ↦ rw early (returned h)
]

sweep_catalogs_spares_example :
    Post
      (λ r w.
        JustDeleted r.0 w
        × Reports collector false 10
            (doc_of 1)
            (payload_text 1 some_uuid)
            1
            JustDeleted
            payloads
            []
            []
            r)
      (λ _ w. (done : List Text) × All Gone done × JustDeleted done w)
      (sweep_catalogs collector false 10
        (doc_of 1)
        (payload_text 1 some_uuid)
        1
        payloads
        []
        []
        (two_generations, none))
sweep_catalogs_spares_example =
    sweep_catalogs_spares collector false 10 (doc_of 1) (payload_text 1 some_uuid) 1 JustDeleted
      (λ key goes wet done all w h.
        Post-weaken (delete_gone key done w h) (λ _ _ x. x) λ _ _ x. absurd x)
      (λ swept done all w h.
        Post-weaken (renew_none swept done w h) (λ _ _ x. x) λ _ _ x. (done, all, x))
      payloads [] [] (two_generations, none) tt (refl, refl)
