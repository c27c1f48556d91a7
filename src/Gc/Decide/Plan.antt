-- ===== src/Gc/Decide/Plan.antt =====
-- What a sweep may delete, and what it must not.
use ducklake_serverless.Base.{ℕ, ◌*◌, ◌≤◌, ◌≡◌, ◌↔◌, arith, Text, List, [], map, false, length, In}
use ducklake_serverless.Models.RootDoc.{RootDoc}
use ducklake_serverless.Chunk.Manifest.{Manifest, pack_keys}
use ducklake_serverless.Store.{ObjectMeta}
use ducklake_serverless.Gc.Decide.{
  ResolvedPayload, committed_chunked, SweepActions, PackSweepPlan, refuse_sweep, sweep_actions,
  ColdSince, member, marked_of, committed_refs_of, listed_from, sweep_items, Fraction,
  trips_breaker, breaker_min, decide_pack_sweep,
}
use ducklake_serverless.Gc.Decide.Safety.{
  HasDoomed, Protects, member-In, delete-HasDoomed, HasDoomed-delete, protected-marked,
  committed-ref, some_missing,
}

module _ (resolved : List ResolvedPayload) (metas : List ObjectMeta) (cold : ColdSince)
    (now grace : ℕ) (fraction : Fraction) where
  abbrev pub listed_keys : List Text
  listed_keys = map (λ (m : ObjectMeta). m.key) (listed_from [] metas)

  abbrev plan : PackSweepPlan
  plan = decide_pack_sweep resolved metas cold now grace fraction

  -- What is known of a plan that is not a refusal.
  record Allowed (a : SweepActions) : Type 0 where
    actions : a ≡ sweep_items (marked_of resolved) cold now grace (listed_from [] metas)
    under_cap : trips_breaker fraction (length (listed_from [] metas)) (length a.delete) ≡ false

  plan-Allowed : (a : SweepActions) → plan ≡ sweep_actions a → Allowed a
  unfolding decide_pack_sweep
  plan-Allowed a e = ground arith

  -- A sweep that goes ahead deletes exactly the listed packs that no retained manifest names,
  -- whose age by the store's clock exceeds the grace, and which the ledger has had cold for
  -- longer than the grace.
  pub decide_pack_sweep_deletes :
      (a : SweepActions) (key : Text)
      → decide_pack_sweep resolved metas cold now grace fraction ≡ sweep_actions a
      → In key a.delete ↔ HasDoomed (marked_of resolved) cold now grace (listed_from [] metas) key
  decide_pack_sweep_deletes a key e =
      let h = plan-Allowed a e in
      (
        λ i.
            delete-HasDoomed (marked_of resolved) cold now grace (listed_from [] metas) key
              (rw h.actions at i),
        λ (meta, i, same, doomed).
            rw (h.actions, ← same)
              (HasDoomed-delete (marked_of resolved) cold now grace (listed_from [] metas) meta i
                doomed),
      )

  -- No sweep that goes ahead deletes a pack that a retained manifest names, of a committed
  -- generation or of one that lost its race.
  pub decide_pack_sweep-Protects :
      (a : SweepActions) (item : ResolvedPayload) (key : Text)
      → decide_pack_sweep resolved metas cold now grace fraction ≡ sweep_actions a
      → In item resolved
      → Protects item key
      → ¬ In key a.delete
  decide_pack_sweep-Protects a item key e i p deleted =
      let (meta, _, same, doomed) = (decide_pack_sweep_deletes a key e).0 deleted in
      let marked = member-In key (marked_of resolved) (protected-marked resolved item key i p) in
      cc (marked, same, doomed.unreferenced)

  -- A sweep is refused if a committed manifest names a pack that is not listed.
  pub decide_pack_sweep_refuses :
      (doc : RootDoc) (m : Manifest) (key : Text)
      → In (committed_chunked doc m) resolved
      → In key (pack_keys m)
      → member key listed_keys ≡ false
      → decide_pack_sweep resolved metas cold now grace fraction ≡ refuse_sweep
  unfolding decide_pack_sweep
  decide_pack_sweep_refuses doc m key i p n = rw (
      some_missing listed_keys (committed_refs_of resolved) key
        (committed-ref resolved doc m key i p) n)

  -- Of ten listed packs or more, no sweep deletes more than the fraction allows.
  pub decide_pack_sweep_under_cap :
      (a : SweepActions)
      → decide_pack_sweep resolved metas cold now grace fraction ≡ sweep_actions a
      → breaker_min ≤ length (listed_from [] metas)
      → fraction.denominator * length a.delete ≤ fraction.numerator * length (listed_from [] metas)
  unfolding trips_breaker
  decide_pack_sweep_under_cap a e ten = ground (arith, (plan-Allowed a e).under_cap)
