-- ===== src/Gc/Collect/Cycles.antt =====
-- A pack is deleted only a cycle after the one that first saw it cold.
use ducklake_serverless.Base.{
  ℕ, ◌+◌, ◌<◌, ◌≡◌, ◌⊎◌, inl, inr, refl, sym, ◌∙◌, ap, arith, Text, text_eq, text_eq_iff, none,
  some, List, [], ◌∷◌, filter, not, ◌&&◌, Bool, Bool-cases, In, dict_get, dict_set, dict_pop,
  get-set_same, get-set_other, get-pop_same, get-pop_other, if◌then◌else◌,
}
use ducklake_serverless.Store.{ObjectMeta}
use ducklake_serverless.Gc.Decide.{
  ResolvedPayload, SweepActions, sweep_actions, ColdSince, cold_get, member, Fraction,
  decide_pack_sweep,
}
use ducklake_serverless.Gc.Decide.Plan.{decide_pack_sweep_deletes}
use ducklake_serverless.Gc.Collect.{next_ledger, set_all, pop_all}

cold_get-dict_get : (key : Text) (cold : ColdSince) → cold_get key cold ≡ dict_get key cold
unfolding cold_get dict_get
cold_get-dict_get key [] = refl
cold_get-dict_get key ((k, t) ∷ rest) =
    ap (λ o. if text_eq k key then some t else o) (cold_get-dict_get key rest)

get-filter :
    (p : Text × ℕ → Bool) (key : Text) (cold : ColdSince)
    → dict_get key cold ≡ none
    → dict_get key (filter p cold) ≡ none
unfolding dict_get
get-filter p key [] e = refl
get-filter p key ((k, t) ∷ rest) e = elim (Bool-cases (text_eq k key)) [
  | inl same ↦ absurd (cc (rw same at e))
  | inr other ↦ elim (Bool-cases (p (k, t))) [
    | inl stays ↦ rw (stays, filter) (rw other (get-filter p key rest (rw other at e)))
    | inr goes ↦ rw (goes, filter) (get-filter p key rest (rw other at e))
  ]
]

-- What is set is set to `now`, and the rest is as before.
get-set_all :
    (now : ℕ) (keys : List Text) (key : Text) (t : ℕ) (cold : ColdSince)
    → dict_get key (set_all now keys cold) ≡ some t
    → (t ≡ now) ⊎ (dict_get key cold ≡ some t)
get-set_all now [] key t cold e = inr e
get-set_all now (k ∷ keys) key t cold e =
    elim (get-set_all now keys key t (dict_set k now cold) e) [
      | inl is ↦ inl is
      | inr there ↦ elim (Bool-cases (text_eq k key)) [
        | inl same ↦ inl (
            cc (
              ap (λ x. dict_get x (dict_set k now cold)) (sym ((text_eq_iff k key).0 same)),
              get-set_same k now cold,
              there,
            ))
        | inr other ↦ inr (
            sym (
              get-set_other k key now cold
                (λ same. absurd (cc (other, (text_eq_iff k key).1 same))))
            ∙ there)
      ]
    ]

get-pop_all :
    (keys : List Text) (key : Text) (t : ℕ) (cold : ColdSince)
    → dict_get key (pop_all keys cold) ≡ some t
    → dict_get key cold ≡ some t
get-pop_all [] key t cold e = e
get-pop_all (k ∷ keys) key t cold e =
    let there = get-pop_all keys key t (dict_pop k cold) e in
    elim (Bool-cases (text_eq k key)) [
      | inl same ↦ absurd (
          cc (
            ap (λ x. dict_get x (dict_pop k cold)) (sym ((text_eq_iff k key).0 same)),
            get-pop_same k cold,
            there,
          ))
      | inr other ↦
          sym (get-pop_other k key cold (λ same. absurd (cc (other, (text_eq_iff k key).1 same))))
          ∙ there
    ]

-- A row that the ledger did not have is stamped with the time of this cycle.
next_ledger-new :
    (plan : SweepActions) (present : List Text) (now : ℕ) (cold : ColdSince) (key : Text) (t : ℕ)
    → cold_get key cold ≡ none
    → cold_get key (next_ledger plan present now cold) ≡ some t
    → t ≡ now
unfolding next_ledger
next_ledger-new plan present now cold key t fresh e =
    let rows : Text × ℕ → Bool = λ row. not (member row.0 plan.resurrect) && member row.0 present in
    let kept = filter rows cold in
    let there = sym (cold_get-dict_get key (next_ledger plan present now cold)) ∙ e in
    elim (get-set_all now plan.tombstone key t kept
      (get-pop_all plan.delete key t (set_all now plan.tombstone kept) there)) [
        | inl is ↦ is
        | inr old ↦
            absurd (cc (get-filter rows key cold (sym (cold_get-dict_get key cold) ∙ fresh), old))
      ]

-- If a pack was not in the ledger when a cycle began, then a later cycle that reads the ledger
-- which that cycle wrote, and goes ahead, deletes the pack only if more than the grace has passed
-- between the times that the two cycles read from the store's clock. This holds whatever the
-- first cycle decided and found.
pub decide_pack_sweep-next_ledger :
    (plan : SweepActions) (present : List Text) (now : ℕ) (cold : ColdSince) (key : Text)
    (resolved : List ResolvedPayload) (metas : List ObjectMeta) (later grace : ℕ)
    (fraction : Fraction) (a : SweepActions)
    → cold_get key cold ≡ none
    → decide_pack_sweep resolved metas (next_ledger plan present now cold) later grace fraction
      ≡ sweep_actions a
    → In key a.delete
    → now + grace < later
decide_pack_sweep-next_ledger plan present now cold key resolved metas later grace fraction a fresh
      e i =
    let (meta, _, is, doomed) =
      (decide_pack_sweep_deletes resolved metas (next_ledger plan present now cold) later grace
          fraction a key e).0
        i in
    let stamped =
      next_ledger-new plan present now cold key doomed.cold_time fresh
        (ap (λ k. cold_get k (next_ledger plan present now cold)) (sym is) ∙ doomed.in_ledger) in
    omega (arith, stamped, doomed.cold_for)
