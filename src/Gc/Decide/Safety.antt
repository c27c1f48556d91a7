-- ===== src/Gc/Decide/Safety.antt =====
-- The fates of packs, and the keys that retained manifests protect.
use mathlib.Core.Path.{subst}
use ducklake_serverless.Base.{
  ℕ, ◌-◌, ◌<◌, ◌≡◌, ◌⊎◌, inl, inr, refl, sym, arith, Text, text_eq_refl, some, List, [], ◌∷◌, any,
  true, false, not, In, In-append_left, In-append_right, Option-cases,
}
use ducklake_serverless.Models.RootDoc.{RootDoc}
use ducklake_serverless.Chunk.Manifest.{Manifest, pack_keys}
use ducklake_serverless.Store.{ObjectMeta}
use ducklake_serverless.Gc.Decide.{
  ResolvedPayload, committed_whole, committed_chunked, orphan_manifest, orphan_opaque, SweepActions,
  ColdSince, cold_get, member, marked_of, committed_refs_of, PackFate, leave, tombstoned,
  resurrected, deleted, is_young, fate, add_fate, sweep_items,
}

pub member-In : (key : Text) (keys : List Text) → In key keys → member key keys ≡ true
unfolding member
member-In key [] h = absurd h
member-In key (k ∷ keys) (inl e) = rw (e, text_eq_refl k)
member-In key (k ∷ keys) (inr h) = ground (arith, member-In key keys h)

-- The pack's age and its time in the ledger both exceed the grace, and nothing retained names it.
pub record IsDoomed (marked : List Text) (cold : ColdSince) (now grace : ℕ) (meta : ObjectMeta)
    : Type 0 where
  pub unreferenced : member meta.key marked ≡ false
  pub modified : ℕ
  pub known_age : meta.last_modified ≡ some modified
  pub aged : grace < now - modified
  pub cold_time : ℕ
  pub in_ledger : cold_get meta.key cold ≡ some cold_time
  pub cold_for : grace < now - cold_time

fate-deleted :
    (marked : List Text) (cold : ColdSince) (now grace : ℕ) (meta : ObjectMeta)
    → fate marked cold now grace meta ≡ deleted
    → IsDoomed marked cold now grace meta
unfolding fate is_young
fate-deleted marked cold now grace meta e = elim (Option-cases meta.last_modified) [
  | inl unknown ↦ absurd (ground (arith, unknown, e))
  | inr (t, known) ↦ elim (Option-cases (cold_get meta.key cold)) [
    | inl fresh ↦ absurd (ground (arith, fresh, e))
    | inr (c, in_ledger) ↦ record {
      unreferenced = ground (arith, in_ledger, e);
      modified = t;
      known_age = known;
      aged = ground (arith, known, in_ledger, e);
      cold_time = c;
      in_ledger = in_ledger;
      cold_for = ground (arith, in_ledger, e);
    }
  ]
]

doomed-fate :
    (marked : List Text) (cold : ColdSince) (now grace : ℕ) (meta : ObjectMeta)
    → IsDoomed marked cold now grace meta
    → fate marked cold now grace meta ≡ deleted
unfolding fate is_young
doomed-fate marked cold now grace meta d =
    ground (arith, d.unreferenced, d.known_age, d.aged, d.in_ledger, d.cold_for)

-- A key in the set of deletes belongs to a listed pack that is doomed.
abbrev pub HasDoomed : List Text → ColdSince → ℕ → ℕ → List ObjectMeta → Text → Type 0
HasDoomed marked cold now grace listed key =
    (meta : ObjectMeta) × In meta listed × (meta.key ≡ key) × IsDoomed marked cold now grace meta

module _ (marked : List Text) (cold : ColdSince) (now grace : ℕ) where
  In-add_fate :
      (f : PackFate) (k key : Text) (a : SweepActions)
      → In key (add_fate f k a).delete
      → ((f ≡ deleted) × (key ≡ k)) ⊎ In key a.delete
  In-add_fate leave k key a h = inr h
  In-add_fate tombstoned k key a h = inr h
  In-add_fate resurrected k key a h = inr h
  In-add_fate deleted k key a (inl e) = inl (refl, e)
  In-add_fate deleted k key a (inr h) = inr h

  kept-add_fate :
      (f : PackFate) (k key : Text) (a : SweepActions)
      → In key a.delete
      → In key (add_fate f k a).delete
  kept-add_fate deleted k key a h = inr h
  kept-add_fate f k key a h = h

  pub delete-HasDoomed :
      (listed : List ObjectMeta) (key : Text)
      → In key (sweep_items marked cold now grace listed).delete
      → HasDoomed marked cold now grace listed key
  unfolding sweep_items
  delete-HasDoomed [] key h = absurd h
  delete-HasDoomed (meta ∷ rest) key h =
      elim (In-add_fate (fate marked cold now grace meta) meta.key key
        (sweep_items marked cold now grace rest) h) [
          | inl (doomed, e) ↦
              (meta, inl refl, sym e, fate-deleted marked cold now grace meta doomed)
          | inr later ↦ let (m, i, e, d) = delete-HasDoomed rest key later in (m, inr i, e, d)
        ]

  pub HasDoomed-delete :
      (listed : List ObjectMeta) (meta : ObjectMeta)
      → In meta listed
      → IsDoomed marked cold now grace meta
      → In meta.key (sweep_items marked cold now grace listed).delete
  unfolding sweep_items
  HasDoomed-delete [] meta i d = absurd i
  HasDoomed-delete (m ∷ rest) meta (inl e) d =
      rw (← e, doomed-fate marked cold now grace meta d) (inl refl)
  HasDoomed-delete (m ∷ rest) meta (inr i) d =
      kept-add_fate (fate marked cold now grace m) m.key meta.key
        (sweep_items marked cold now grace rest) (HasDoomed-delete rest meta i d)

-- The manifests that a resolved payload protects, committed or orphaned.
abbrev pub Protects : ResolvedPayload → Text → Type 0
Protects (committed_whole doc) key = ⊥
Protects (committed_chunked doc m) key = In key (pack_keys m)
Protects (orphan_manifest k m) key = In key (pack_keys m)
Protects (orphan_opaque k) key = ⊥

first_marked :
    (x : ResolvedPayload) (rest : List ResolvedPayload) (key : Text)
    → Protects x key
    → In key (marked_of (x ∷ rest))
unfolding marked_of
first_marked (committed_whole doc) rest key p = absurd p
first_marked (committed_chunked doc m) rest key p =
    In-append_left key (pack_keys m) (marked_of rest) p
first_marked (orphan_manifest k m) rest key p = In-append_left key (pack_keys m) (marked_of rest) p
first_marked (orphan_opaque k) rest key p = absurd p

first_ref :
    (x : ResolvedPayload) (rest : List ResolvedPayload) (doc : RootDoc) (m : Manifest) (key : Text)
    → committed_chunked doc m ≡ x
    → In key (pack_keys m)
    → In key (committed_refs_of (x ∷ rest))
unfolding committed_refs_of
first_ref x rest doc m key e p =
    subst (λ y. In key (committed_refs_of (y ∷ rest))) e
      (In-append_left key (pack_keys m) (committed_refs_of rest) p)

pub protected-marked :
    (resolved : List ResolvedPayload) (item : ResolvedPayload) (key : Text)
    → In item resolved
    → Protects item key
    → In key (marked_of resolved)
unfolding marked_of
protected-marked [] item key i p = absurd i
protected-marked (x ∷ rest) item key (inl e) p =
    first_marked x rest key (subst (λ y. Protects y key) e p)
protected-marked (committed_whole doc ∷ rest) item key (inr i) p =
    protected-marked rest item key i p
protected-marked (committed_chunked doc m ∷ rest) item key (inr i) p =
    In-append_right key (pack_keys m) (marked_of rest) (protected-marked rest item key i p)
protected-marked (orphan_manifest k m ∷ rest) item key (inr i) p =
    In-append_right key (pack_keys m) (marked_of rest) (protected-marked rest item key i p)
protected-marked (orphan_opaque k ∷ rest) item key (inr i) p = protected-marked rest item key i p

pub committed-ref :
    (resolved : List ResolvedPayload) (doc : RootDoc) (m : Manifest) (key : Text)
    → In (committed_chunked doc m) resolved
    → In key (pack_keys m)
    → In key (committed_refs_of resolved)
unfolding committed_refs_of
committed-ref [] doc m key i p = absurd i
committed-ref (x ∷ rest) doc m key (inl e) p = first_ref x rest doc m key e p
committed-ref (committed_chunked d n ∷ rest) doc m key (inr i) p =
    In-append_right key (pack_keys n) (committed_refs_of rest) (committed-ref rest doc m key i p)
committed-ref (committed_whole d ∷ rest) doc m key (inr i) p = committed-ref rest doc m key i p
committed-ref (orphan_manifest k n ∷ rest) doc m key (inr i) p = committed-ref rest doc m key i p
committed-ref (orphan_opaque k ∷ rest) doc m key (inr i) p = committed-ref rest doc m key i p

pub some_missing :
    (keys refs : List Text) (key : Text)
    → In key refs
    → member key keys ≡ false
    → any (λ k. not (member k keys)) refs ≡ true
some_missing keys [] key i n = absurd i
some_missing keys (r ∷ refs) key (inl e) n = rw (← e, n)
some_missing keys (r ∷ refs) key (inr i) n = ground (arith, some_missing keys refs key i n)
