-- ===== src/Store/Probe/Decides.antt =====
-- The probe tells a store whose creates are atomic from one where the last writer wins.
use ducklake_serverless.Base.{
  ℕ, suc, ◌+◌, ◌≡◌, ◌⊎◌, inl, inr, refl, arith, Text, Bytes, List, [], ◌∷◌, length, Bool, true,
  false,
}
use ducklake_serverless.Errors.{
  Result, ok, err, precondition_failed, conditional_conflict, Exec, Post, returned, raised,
  Post-bind, Post-handle, Post-weaken, ensuring, cleaned,
}
use ducklake_serverless.Models.Keys.{Uuid}
use ducklake_serverless.Store.{ObjectStore}
use ducklake_serverless.Store.Probe.{
  Tally, scored, contend, count_concurrent_winners, writer_body, count_concurrent_create_winners,
  create_key, probe_atomic_create,
}

module _ {W : Type 0} (store : ObjectStore W) where
  -- Of the creates of a key that nothing has yet, the first one wins and the others are refused,
  -- with 412 or with 409.
  pub record IsAtomic (Free Taken : W → Type 0) (key : Text) : Type 0 where
    pub first_law :
        (body : Bytes) (w : W)
        → Free w
        → Post (λ _ w'. Taken w') (λ _ _. ⊥) (store.put_if_absent key body w)
    pub later_law :
        (body : Bytes) (w : W)
        → Taken w
        → Post
            (λ _ _. ⊥)
            (λ e w'. Taken w' × ((e ≡ precondition_failed) ⊎ (e ≡ conditional_conflict)))
            (store.put_if_absent key body w)

  -- Every create wins.
  abbrev pub LastWins : Text → Type 0
  LastWins key =
      (body : Bytes) (w : W) → Post (λ _ _. Unit {0}) (λ _ _. ⊥) (store.put_if_absent key body w)

  module _ (uuid4 : Exec W Uuid) (key : Text) where
    abbrev attempt : ℕ → Exec W Text
    attempt writer_id = store.put_if_absent key (writer_body store uuid4 writer_id)

    scored-Post :
        (racers : List ℕ) (t : Tally) (Q : Tally → W → Type 0) (m : Result Text × W)
        → Post
            (λ _ w'.
              Post Q
                (λ _ _. ⊥)
                (contend attempt racers (record { wins = suc t.wins; errors = t.errors }) w'))
            (λ e w'. Post Q (λ _ _. ⊥) (contend attempt racers (scored t (err e)) w'))
            m
        → Post Q (λ _ _. ⊥) (contend attempt racers (scored t m.0) m.1)
    scored-Post racers t Q m (returned h) = h
    scored-Post racers t Q m (raised h) = h

    module _ (Free Taken : W → Type 0) (atomic : IsAtomic Free Taken key) where
      losers :
          (racers : List ℕ) (t : Tally) (w : W)
          → Taken w
          → Post (λ t' _. t' ≡ t) (λ _ _. ⊥) (contend attempt racers t w)
      unfolding contend
      losers [] t w taken = returned refl
      losers (r ∷ racers) t w taken = scored-Post racers t _ (attempt r w) (
          Post-weaken (atomic.later_law (writer_body store uuid4 r) w taken) (λ _ _ x. absurd x)
            λ e v h. elim h.1 [
              | inl failed ↦ rw failed (losers racers t v h.0)
              | inr conflict ↦ rw conflict (losers racers t v h.0)
            ])

      one_winner :
          (r : ℕ) (racers : List ℕ) (w : W)
          → Free w
          → Post (λ n _. n ≡ 1) (λ _ _. ⊥) (count_concurrent_winners (r ∷ racers) attempt w)
      unfolding count_concurrent_winners contend
      one_winner r racers w free =
          Post-bind
            (scored-Post racers (record { wins = 0; errors = 0 })
              (λ t _. t ≡ record { wins = 1; errors = 0 }) (attempt r w)
              (Post-weaken (atomic.first_law (writer_body store uuid4 r) w free)
                (λ _ v taken. losers racers (record { wins = 1; errors = 0 }) v taken)
                λ _ _ x. absurd x))
            (λ t v is. rw is (returned refl)) λ e v x. x

    module _ (last : LastWins key) where
      winners :
          (racers : List ℕ) (t : Tally) (w : W)
          → Post
              (λ t' _. (t'.wins ≡ t.wins + length racers) × (t'.errors ≡ t.errors))
              (λ _ _. ⊥)
              (contend attempt racers t w)
      unfolding contend
      winners [] t w = returned (omega arith, refl)
      winners (r ∷ racers) t w = scored-Post racers t _ (attempt r w) (
          Post-weaken (last (writer_body store uuid4 r) w)
            (λ _ v _.
              Post-weaken (winners racers (record { wins = suc t.wins; errors = t.errors }) v)
                (λ t' u h. (omega (arith, h.0), h.1)) λ e u x. x)
            λ _ _ x. absurd x)

      all_win :
          (racers : List ℕ) (w : W)
          → Post (λ n _. n ≡ length racers) (λ _ _. ⊥) (count_concurrent_winners racers attempt w)
      unfolding count_concurrent_winners
      all_win racers w =
          Post-bind (winners racers (record { wins = 0; errors = 0 }) w)
            (λ t v h. rw h.1 (returned (omega (arith, h.0)))) λ e v x. x

module _ {W : Type 0} (store : ObjectStore W) (uuid4 : Exec W Uuid)
    (delete_law : (key : Text) (w : W)
      → Post (λ _ _. Unit {0}) (λ _ _. ⊥) (store.delete key w)) where
  -- The count decides, and the probe cleans up behind itself.
  cleans_up :
      (key : Text) (b : Bool) (m : Result Bool × W)
      → Post (λ c _. c ≡ b) (λ _ _. ⊥) m
      → Post (λ c _. c ≡ b) (λ _ _. ⊥) (ensuring (λ _. m) (store.delete key) m.1)
  cleans_up key b m (returned {a = c} {w = w} h) =
      Post-handle (λ s u. (cleaned (ok c) s, u)) (delete_law key w) (λ _ _ _. returned h)
        λ _ _ x. absurd x
  cleans_up key b m (raised h) = absurd h

  -- If the UUID names a key that nothing has yet, creates of that key are atomic (the first one wins,
  -- each later one is answered with 412 or 409) and no delete fails, then the probe returns true, whatever the order of its contenders, one or more.
  pub probe_atomic_create_accepts :
      (Free Taken : Uuid → W → Type 0)
      → ((u : Uuid) → IsAtomic store (Free u) (Taken u) (create_key store uuid4 u))
      → (r : ℕ) (racers : List ℕ) (w : W) → Post (λ u w'. Free u w') (λ _ _. ⊥) (uuid4 w)
      → Post (λ b _. b ≡ true) (λ _ _. ⊥) (probe_atomic_create store uuid4 (r ∷ racers) w)
  unfolding probe_atomic_create count_concurrent_create_winners
  probe_atomic_create_accepts Free Taken atomic r racers w fresh =
      Post-bind fresh
        (λ u v free. cleans_up (create_key store uuid4 u) true _ (
          Post-bind
            (one_winner store uuid4 (create_key store uuid4 u) (Free u) (Taken u) (atomic u) r
              racers v free)
            (λ n x is. rw is (returned refl)) λ e x h. h))
        λ e v h. h

  -- If every create wins, as where the last writer wins, no delete fails and a UUID is given, then
  -- the probe returns false, for two contenders or more.
  pub probe_atomic_create_refuses :
      ((u : Uuid) → LastWins store (create_key store uuid4 u))
      → (r s : ℕ) (racers : List ℕ) (w : W) → Post (λ _ _. Unit {0}) (λ _ _. ⊥) (uuid4 w)
      → Post (λ b _. b ≡ false) (λ _ _. ⊥) (probe_atomic_create store uuid4 (r ∷ s ∷ racers) w)
  unfolding probe_atomic_create count_concurrent_create_winners
  probe_atomic_create_refuses last r s racers w given =
      Post-bind given
        (λ u v _. cleans_up (create_key store uuid4 u) false _ (
          Post-bind (all_win store uuid4 (create_key store uuid4 u) (last u) (r ∷ s ∷ racers) v)
            (λ n x is. rw is (returned (ground arith))) λ e x h. h))
        λ e v h. h
