-- ===== src/Gc/Collect/Spares.antt =====
-- Which payloads a collection deletes.
use mathlib.Core.List.{append-nil, append_assoc}
use ducklake_serverless.Base.{
  ℕ, ◌+◌, ◌≤◌, ◌≢◌, arith, text_eq, text_eq_iff, Option-cases, ◌≡◌, refl, sym, ◌∙◌, inl, inr, Text,
  Option, some, List, [], ◌∷◌, ◌++◌, Bool, true, false, Bool-cases, All, All-append, if◌then◌else◌,
}
use ducklake_serverless.Errors.{Exec, Result, Post, returned, Post-bind, Post-weaken, ◌>>=◌}
use ducklake_serverless.Models.RootDoc.{RootDoc}
use ducklake_serverless.Gc.Ledger.{generation_of}
use ducklake_serverless.Gc.Deletes.{away, keep_lease}
use ducklake_serverless.Gc.Collect.{Collector, is_kept, sweep_catalogs}

module _ {W : Type 0} (gc : Collector W) (dry_run : Bool) (grace : ℕ) (current : RootDoc)
    (head_key : Text) (retain : ℕ) (Safe : List Text → W × Option Text → Type 0) where
  -- A payload that the window has passed: its key has a generation below the floor, and it is
  -- not the head's.
  abbrev pub IsSwept : Text → Type 0
  IsSwept key =
      (g : ℕ) × (generation_of gc.decimal key ≡ some g)
      × (key ≢ head_key)
      × (g + retain ≤ current.generation)

  is_kept-eq-false :
      (key : Text) → is_kept gc dry_run grace current head_key retain key ≡ false → IsSwept key
  unfolding is_kept
  is_kept-eq-false key e = elim (Option-cases (generation_of gc.decimal key)) [
    | inl unknown ↦ absurd (cc (rw (unknown, is_kept) at e))
    | inr (g, canonical) ↦ elim (Bool-cases (text_eq key head_key)) [
      | inl head ↦ absurd (cc (rw (canonical, head, is_kept) at e))
      | inr other ↦ (
        g,
        canonical,
        (λ same. absurd (cc (other, (text_eq_iff key head_key).1 same))),
        ground (arith, rw (canonical, other, is_kept) at e),
      )
    ]
  ]

  is_kept-eq-true :
      (key : Text) → is_kept gc dry_run grace current head_key retain key ≡ true → ¬ IsSwept key
  unfolding is_kept
  is_kept-eq-true key e (g, canonical, other, old) = elim (Bool-cases (text_eq key head_key)) [
    | inl head ↦ other ((text_eq_iff key head_key).0 head)
    | inr differs ↦ absurd (ground (arith, rw (canonical, differs, is_kept) at e, old))
  ]

  -- Some deletes have been made, all of payloads that the window has passed.
  abbrev pub SafeSome : W × Option Text → Type 0
  SafeSome w = (done : List Text) × All IsSwept done × Safe done w

  -- The listed keys in their order, divided into the payloads that the window has passed and the
  -- others.
  pub data Splits : List Text → List Text → List Text → Type 0 where
    split_end : Splits [] [] []
    to_swept :
        {key : Text} {l s k : List Text} → IsSwept key → Splits l s k → Splits (key ∷ l) (key ∷ s) k
    to_kept :
        {key : Text} {l s k : List Text}
        → (¬ IsSwept key)
        → Splits l s k
        → Splits (key ∷ l) s (key ∷ k)

  -- What is deleted of what is reported as swept: nothing in a dry run.
  abbrev pub deleted : Bool → List Text → List Text
  deleted true swept = []
  deleted false swept = swept

  -- The report goes on from what was swept and kept before.
  abbrev pub Reports : List Text → List Text → List Text → List Text × List Text → Type 0
  Reports listed swept kept r =
      (s k : List Text) × (r.0 ≡ swept ++ s) × (r.1 ≡ kept ++ k) × Splits listed s k

  module _
      (delete_law : (key : Text)
        → IsSwept key
        → dry_run ≡ false
        → (done : List Text) → All IsSwept done
        → (w : W × Option Text) → Safe done w
        → Post
            (λ _ w'. Safe (done ++ key ∷ []) w')
            (λ _ w'. SafeSome w')
            (away (gc.store.delete key) w))
      (renew_law : (swept done : List Text)
        → All IsSwept done
        → (w : W × Option Text) → Safe done w
        → Post
            (λ _ w'. Safe done w')
            (λ _ w'. SafeSome w')
            (keep_lease gc.store gc.lease grace swept w)) where
    abbrev SweepPost :
        List Text
        → List Text
        → List Text
        → Result (List Text × List Text) × (W × Option Text)
        → Type 0
    SweepPost listed swept kept =
        Post (λ r w'. Safe (deleted dry_run r.0) w' × Reports listed swept kept r)
          (λ _ w'. SafeSome w')

    -- One payload that the window has passed, and what follows it.
    swept_step :
        (b : Bool)
        → dry_run ≡ b
        → (key : Text) → IsSwept key
        → (swept : List Text) → All IsSwept swept
        → (go_on : Exec (W × Option Text) (List Text × List Text))
        → (Q : List Text × List Text → W × Option Text → Type 0)
        → ((u : W × Option Text)
            → Safe (deleted b (swept ++ key ∷ [])) u
            → Post Q (λ _ w'. SafeSome w') (go_on u))
        → (w : W × Option Text) → Safe (deleted b swept) w
        → Post Q
            (λ _ w'. SafeSome w')
            ((if b then go_on else (do
              _ ← away (gc.store.delete key)
              _ ← keep_lease gc.store gc.lease grace (swept ++ key ∷ [])
              go_on))
              w)
    swept_step true is key goes swept all go_on Q again w safe = again w safe
    swept_step false is key goes swept all go_on Q again w safe =
        Post-bind (delete_law key goes is swept all w safe)
          (λ _ u safe'.
            Post-bind
              (renew_law (swept ++ key ∷ []) (swept ++ key ∷ [])
                (All-append IsSwept swept (key ∷ []) all (goes, tt)) u safe')
              (λ _ v safe''. again v safe'') λ e v h. h)
          λ e u h. h

    more_swept :
        (key : Text) (listed swept kept : List Text) (r : List Text × List Text)
        → IsSwept key
        → Reports listed (swept ++ key ∷ []) kept r
        → Reports (key ∷ listed) swept kept r
    more_swept key listed swept kept r goes (s, k, e, e', split) =
        (key ∷ s, k, e ∙ append_assoc swept (key ∷ []) s, e', to_swept goes split)

    more_kept :
        (key : Text) (listed swept kept : List Text) (r : List Text × List Text)
        → (¬ IsSwept key)
        → Reports listed swept (kept ++ key ∷ []) r
        → Reports (key ∷ listed) swept kept r
    more_kept key listed swept kept r stays (s, k, e, e', split) =
        (s, key ∷ k, e, e' ∙ append_assoc kept (key ∷ []) k, to_kept stays split)

    -- If deletes of payloads that the window has passed keep the world safe, and so does the
    -- lease, then the sweep of the payloads keeps it safe: at its end just the keys that it
    -- reports as swept are deleted, in a dry run none, and on an error some payloads that the
    -- window has passed. It reports every listed key in its order: as swept if the window has
    -- passed it, and as kept if not.
    pub sweep_catalogs_spares :
        (listed swept kept : List Text) (w : W × Option Text)
        → All IsSwept swept
        → Safe (deleted dry_run swept) w
        → Post
            (λ r w'. Safe (deleted dry_run r.0) w' × Reports listed swept kept r)
            (λ _ w'. SafeSome w')
            (sweep_catalogs gc dry_run grace current head_key retain listed swept kept w)
    unfolding sweep_catalogs
    sweep_catalogs_spares [] swept kept w all safe =
        returned (safe, ([], [], sym (append-nil swept), sym (append-nil kept), split_end))
    sweep_catalogs_spares (key ∷ listed) swept kept w all safe =
        elim (Bool-cases (is_kept gc dry_run grace current head_key retain key)) [
          | inl stays ↦ rw stays (
              Post-weaken (sweep_catalogs_spares listed swept (kept ++ key ∷ []) w all safe)
                (λ r u h. (h.0, more_kept key listed swept kept r (is_kept-eq-true key stays) h.1))
                λ e u h. h)
          | inr goes ↦
              let past : IsSwept key = is_kept-eq-false key goes in
              rw goes (
                swept_step dry_run refl key past swept all
                  (λ u.
                    sweep_catalogs gc dry_run grace current head_key retain listed
                      (swept ++ key ∷ []) kept u)
                  (λ r u. Safe (deleted dry_run r.0) u × Reports (key ∷ listed) swept kept r)
                  (λ u safe'.
                    Post-weaken
                      (sweep_catalogs_spares listed (swept ++ key ∷ []) kept u
                        (All-append IsSwept swept (key ∷ []) all (past, tt)) safe')
                      (λ r v h. (h.0, more_swept key listed swept kept r past h.1)) λ e v h. h)
                  w safe)
        ]
