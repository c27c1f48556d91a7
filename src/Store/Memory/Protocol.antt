-- ===== src/Store/Memory/Protocol.antt =====
-- The in-memory store keeps the laws that the commit protocol needs, and it never fails: what it
-- holds is what was last written, and a create-only write never replaces an object.
use ducklake_serverless.Base.{
  ℕ, suc, ◌+◌, ◌≤◌, ◌≡◌, ◌≢◌, ◌⊎◌, refl, ap, sym, ◌∙◌, inl, inr, arith, Text, Bytes, text_eq,
  text_eq_iff, text_eq_refl, [], ◌∷◌, Option, none, some, Option-cases, false, Bool-cases,
  if◌then◌else◌,
}
use ducklake_serverless.Errors.{returned, raised}
use ducklake_serverless.Models.Keys.{marker_text, max_generation}
use ducklake_serverless.Models.Keys.RoundTrip.{marker_text-injective}
use ducklake_serverless.Models.RootDoc.{RootDoc, JsonBytes}
use ducklake_serverless.Store.Markers.{
  Present, Committed, IsDense, MarkersStay, Later, IsNoMarker, IsNext, KeepsMarkers,
}
use ducklake_serverless.Store.Memory.{
  InMemoryObjectStore, Stored, Objects, lookup, set_object, pop_object, next_etag, write_object,
  in_memory,
}
use ducklake_serverless.Root.Reading.{Later-refl}

pub lookup-set_object :
    (key : Text) (v : Stored) (l : Objects) → lookup (set_object key v l) key ≡ some v
unfolding lookup set_object
lookup-set_object key v [] = rw (text_eq_refl key) refl
lookup-set_object key v ((k, u) ∷ rest) = ground (arith, lookup-set_object key v rest)

pub differs : (k key k' : Text) → k ≡ key → key ≢ k' → text_eq k k' ≡ false
differs k key k' e n = elim (Bool-cases (text_eq k k')) [
  | inl it ↦ absurd (n (sym e ∙ (text_eq_iff k k').0 it))
  | inr other ↦ other
]

pub lookup-set_object_other :
    (key k' : Text) (v : Stored) (l : Objects)
    → key ≢ k'
    → lookup (set_object key v l) k' ≡ lookup l k'
unfolding lookup set_object
lookup-set_object_other key k' v [] n = elim (Bool-cases (text_eq key k')) [
  | inl it ↦ absurd (n ((text_eq_iff key k').0 it))
  | inr differs ↦ rw differs refl
]
lookup-set_object_other key k' v ((k, u) ∷ rest) n = elim (Bool-cases (text_eq k key)) [
  | inl it ↦ rw (it, differs k key k' ((text_eq_iff k key).0 it) n) refl
  | inr other ↦
      rw other
        (ap (λ o. if text_eq k k' then some u else o) (lookup-set_object_other key k' v rest n))
]

pub lookup-pop_object_other :
    (key k' : Text) (l : Objects) → key ≢ k' → lookup (pop_object key l) k' ≡ lookup l k'
unfolding lookup pop_object
lookup-pop_object_other key k' [] n = refl
lookup-pop_object_other key k' ((k, u) ∷ rest) n = elim (Bool-cases (text_eq k key)) [
  | inl it ↦ rw (it, differs k key k' ((text_eq_iff k key).0 it) n) refl
  | inr other ↦
      rw other
        (ap (λ o. if text_eq k k' then some u else o) (lookup-pop_object_other key k' rest n))
]

-- What is stored at a key.
abbrev pub body_of : Option Stored → Option Bytes
body_of none = none
body_of (some v) = some v.body

abbrev pub body_at : InMemoryObjectStore → Text → Option Bytes
body_at s key = body_of (lookup s.objects key)

-- The store after a write.
abbrev pub write : (ℕ → ℕ) → Text → Bytes → InMemoryObjectStore → InMemoryObjectStore
write clock key body s = (write_object clock key body s).1

pub body_at-write :
    (clock : ℕ → ℕ) (k k' : Text) (b : Bytes) (w : InMemoryObjectStore)
    → k ≡ k'
    → body_at (write clock k b w) k' ≡ some b
unfolding write_object
body_at-write clock k k' b w e = rw (← e) (
    ap body_of (
      lookup-set_object k
        (record {
          body = b;
          etag = next_etag (w.etag_counter + 1);
          written = clock (w.etag_counter + 1);
        })
        w.objects))

pub body_at-write_other :
    (clock : ℕ → ℕ) (k k' : Text) (b : Bytes) (w : InMemoryObjectStore)
    → k ≢ k'
    → body_at (write clock k b w) k' ≡ body_at w k'
unfolding write_object
body_at-write_other clock k k' b w n = ap body_of (
    lookup-set_object_other k k'
      (record {
        body = b;
        etag = next_etag (w.etag_counter + 1);
        written = clock (w.etag_counter + 1);
      })
      w.objects n)

-- A marker is the one that is written, or it is another one.
same_or_other : (k : Text) (g : ℕ) → (k ≡ marker_text g) ⊎ (k ≢ marker_text g)
same_or_other k g = elim (Bool-cases (text_eq k (marker_text g))) [
  | inl it ↦ inl ((text_eq_iff k (marker_text g)).0 it)
  | inr differs ↦ inr (λ e. cc ((text_eq_iff k (marker_text g)).1 e, differs))
]

module _ (clock : ℕ → ℕ) (json : JsonBytes) where
  stays-Committed :
      (w w' : InMemoryObjectStore) (g : ℕ) (doc : RootDoc)
      → MarkersStay json body_at w w'
      → Committed json body_at w g doc
      → Committed json body_at w' g doc
  stays-Committed w w' g doc stay c = record {
    in_range = c.in_range;
    body = c.body;
    stored = stay g c.body c.stored;
    parsed = c.parsed;
    generation = c.generation;
  }

  -- A write elsewhere leaves every marker as it is.
  pub write_other-Later :
      (k : Text) (b : Bytes) (w : InMemoryObjectStore)
      → IsNoMarker json body_at k
      → IsDense json body_at w
      → Later json body_at w (write clock k b w)
  write_other-Later k b w other d = record {
    stay = λ g c e. same g ∙ e;
    dense = record {
      parent = λ g p.
          let q = d.parent g (p.0, p.1, sym (same (suc g)) ∙ p.2) in (q.0, q.1, same g ∙ q.2);
      well_formed = λ g p.
          let (doc, c) = d.well_formed g (p.0, p.1, sym (same g) ∙ p.2) in
          (doc, stays-Committed w (write clock k b w) g doc (λ h body e. same h ∙ e) c);
    };
  }
    where
      same : (g : ℕ) → body_at (write clock k b w) (marker_text g) ≡ body_at w (marker_text g)
      same g = body_at-write_other clock k (marker_text g) b w (other g)

  -- The next marker may be written.
  pub write_marker-Later :
      (k : Text) (b : Bytes) (w : InMemoryObjectStore) (doc : RootDoc)
      → IsNext json body_at w k b doc
      → body_at w k ≡ none
      → IsDense json body_at w
      → Later json body_at w (write clock k b w)
  write_marker-Later k b w doc next free d = record {
    stay = stay;
    dense = record { parent = parent; well_formed = well_formed };
  }
    where
      stay : MarkersStay json body_at w (write clock k b w)
      stay g c e =
          body_at-write_other clock k (marker_text g) b w (λ same. absurd (cc (same, free, e))) ∙ e

      keep : (g : ℕ) → Present json body_at w g → Present json body_at (write clock k b w) g
      keep g p = (p.0, p.1, stay g p.1 p.2)

      before :
          (g : ℕ)
          → k ≢ marker_text g
          → Present json body_at (write clock k b w) g
          → Present json body_at w g
      before g n p = (p.0, p.1, sym (body_at-write_other clock k (marker_text g) b w n) ∙ p.2)

      own : (g : ℕ) → g ≤ max_generation → k ≡ marker_text g → doc.generation ≡ g
      own g fits e = marker_text-injective doc.generation g next.in_range fits (sym next.key ∙ e)

      parent :
          (g : ℕ)
          → Present json body_at (write clock k b w) (suc g)
          → Present json body_at (write clock k b w) g
      parent g p = elim (same_or_other k (suc g)) [
        | inl e ↦ keep g (next.parent g (own (suc g) p.0 e))
        | inr n ↦ keep g (d.parent g (before (suc g) n p))
      ]

      well_formed :
          (g : ℕ)
          → Present json body_at (write clock k b w) g
          → (doc' : RootDoc) × Committed json body_at (write clock k b w) g doc'
      well_formed g p = elim (same_or_other k g) [
        | inl e ↦ (
          doc,
          record {
            in_range = p.0;
            body = b;
            stored = body_at-write clock k (marker_text g) b w e;
            parsed = next.parsed;
            generation = own g p.0 e;
          },
        )
        | inr n ↦
            let (doc', c) = d.well_formed g (before g n p) in
            (doc', stays-Committed w (write clock k b w) g doc' stay c)
      ]

  pub in_memory-KeepsMarkers : KeepsMarkers json body_at (in_memory clock) ⊥
  unfolding in_memory write_object
  in_memory-KeepsMarkers = record {
    get_law = λ k w d. elim (Option-cases (lookup w.objects k)) [
      | inl gone ↦ rw gone (raised (Later-refl json body_at d, inl (refl, ap body_of gone)))
      | inr (v, there) ↦ rw there (returned (Later-refl json body_at d, ap body_of there))
    ];
    head_law = λ k w d. elim (Option-cases (lookup w.objects k)) [
      | inl gone ↦ rw gone (raised (Later-refl json body_at d, inl refl))
      | inr (v, there) ↦ rw there (returned (Later-refl json body_at d))
    ];
    put_law = λ k b w other d. returned (write_other-Later k b w other d);
    create_law = λ k b w other d. elim (Option-cases (lookup w.objects k)) [
      | inl free ↦ rw free (returned (write_other-Later k b w other d))
      | inr (v, taken) ↦ rw taken (raised (Later-refl json body_at d, inl (inl refl)))
    ];
    create_marker_law = λ k b w doc next d. elim (Option-cases (lookup w.objects k)) [
      | inl free ↦ rw free (
          returned (
            write_marker-Later k b w doc next (ap body_of free) d,
            refl,
            body_at-write clock k k b w refl,
          ))
      | inr (v, taken) ↦ rw taken (raised (Later-refl json body_at d, inl (inl refl)))
    ];
  }
