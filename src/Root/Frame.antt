-- ===== src/Root/Frame.antt =====
-- What holds of the world before `resolve_head`, and is left alone by the reads of the store, holds
-- after it.
use ducklake_serverless.Base.{
  ℕ, zero, suc, ◌+◌, ◌*◌, ◌/◌, ◌-◌, min, inl, inr, Text, Option, none, some, Bool-cases, ltb, leb,
  ◌==◌, if◌then◌else◌,
}
use ducklake_serverless.Errors.{
  Result, ok, err, object_not_found, external_service, Exec, lift, handle, absent_or, ◌>>=◌, Post,
  returned, raised, Post-bind, Post-handle, is_object_not_found,
}
use ducklake_serverless.Models.Keys.{max_generation, format_marker_key}
use ducklake_serverless.Models.RootDoc.{RootDoc, JsonBytes, from_json_bytes}
use ducklake_serverless.Store.{ObjectStore}
use ducklake_serverless.Root.{
  checked_doc, read_marker, hint_result, hint_generation, bracket, binary_search, frontier,
  gallop_discover, forward, start_at, resolve_head, root_hint_key, probe_cap, gallop_cap,
}

module _ {W : Type 0} (Inv : W → Type 0) where
  abbrev pub Leaves : {A : Type 0} → Exec W A → Type 0
  Leaves m = (w : W) → Inv w → Post (λ _ w'. Inv w') (λ _ w'. Inv w') (m w)

  bind-Leaves :
      {A B : Type 0} (m : Exec W A) (f : A → Exec W B)
      → Leaves m
      → ((a : A) → Leaves (f a))
      → Leaves (m >>= f)
  bind-Leaves m f k h w i = Post-bind (k w i) (λ a v j. h a v j) λ e v j. j

  handle-Leaves :
      {A B : Type 0} (m : Exec W A) (f : Result A → Exec W B)
      → Leaves m
      → ((r : Result A) → Leaves (f r))
      → Leaves (handle m f)
  handle-Leaves m f k h w i = Post-handle f (k w i) (λ a v j. h (ok a) v j) λ e v j. h (err e) v j

  lift-Leaves : {A : Type 0} (r : Result A) → Leaves (lift r)
  lift-Leaves (ok a) w i = returned i
  lift-Leaves (err e) w i = raised i

  pub absent_or-Leaves :
      {A B : Type 0} (missing : Exec W B) (found : A → Exec W B)
      → Leaves missing
      → ((a : A) → Leaves (found a))
      → (r : Result A) → Leaves (absent_or missing found r)
  absent_or-Leaves missing found m f (ok a) w i = f a w i
  absent_or-Leaves missing found m f (err e) w i = elim (Bool-cases (is_object_not_found e)) [
    | inl gone ↦ rw gone (m w i)
    | inr other ↦ rw other (raised i)
  ]

  module _ (store : ObjectStore W) (json : JsonBytes)
      (get_law : (key : Text) → Leaves (store.get key)) where
    checked-Leaves : (g : ℕ) (o : Option RootDoc) → Leaves (checked_doc store json g o)
    checked-Leaves g none w i = raised i
    checked-Leaves g (some doc) w i = elim (Bool-cases (doc.generation == g)) [
      | inl same ↦ rw same (returned i)
      | inr other ↦ rw other (raised i)
    ]

    read_marker-Leaves : (g : ℕ) → Leaves (read_marker store json g)
    unfolding read_marker
    read_marker-Leaves g =
        bind-Leaves (lift (format_marker_key g)) _ (lift-Leaves (format_marker_key g)) λ key.
          bind-Leaves (store.get key) _ (get_law key)
            λ r. checked-Leaves g (from_json_bytes json r.body)

    hint_result-Leaves : (r : Result _) → Leaves (hint_result store json r)
    hint_result-Leaves (ok body) w i = returned i
    hint_result-Leaves (err object_not_found) w i = returned i
    hint_result-Leaves (err external_service) w i = returned i
    hint_result-Leaves (err e) w i = raised i

    hint_generation-Leaves : Leaves (hint_generation store json)
    unfolding hint_generation
    hint_generation-Leaves =
        handle-Leaves _ (hint_result store json)
          (bind-Leaves (store.get root_hint_key) _ (get_law root_hint_key) λ r w i. returned i)
          hint_result-Leaves

    bracket-Leaves : (n lo step : ℕ) → Leaves (bracket store json n lo step)
    unfolding bracket
    bracket-Leaves zero lo step w i = raised i
    bracket-Leaves (suc n) lo step w i = elim (Bool-cases (ltb max_generation (lo + step))) [
      | inl above ↦ rw above (returned i)
      | inr fits ↦ rw fits (
          handle-Leaves (read_marker store json (lo + step)) _ (read_marker-Leaves (lo + step))
            (absent_or-Leaves _ _ (λ u j. returned j)
              λ _ u j. bracket-Leaves n (lo + step) (step * 2) u j)
            w i)
    ]

    binary_search-Leaves :
        (n left right last : ℕ) → Leaves (binary_search store json n left right last)
    unfolding binary_search
    binary_search-Leaves zero left right last w i = raised i
    binary_search-Leaves (suc n) left right last w i = elim (Bool-cases (leb left right)) [
      | inl more ↦ rw more (
          handle-Leaves (read_marker store json ((left + right) / 2)) _
            (read_marker-Leaves ((left + right) / 2))
            (absent_or-Leaves _ _
              (λ u j. binary_search-Leaves n left ((left + right) / 2 - 1) last u j)
              λ _ u j.
                binary_search-Leaves n ((left + right) / 2 + 1) right ((left + right) / 2) u j)
            w i)
      | inr done ↦ rw done (returned i)
    ]

    frontier-Leaves : Leaves (frontier store json)
    unfolding frontier
    frontier-Leaves =
        bind-Leaves (bracket store json (max_generation + 1) 0 1) _
          (bracket-Leaves (max_generation + 1) 0 1)
          λ r. binary_search-Leaves (r.1 - r.0) (r.0 + 1) (r.1 - 1) r.0

    gallop_discover-Leaves : Leaves (gallop_discover store json)
    unfolding gallop_discover
    gallop_discover-Leaves = handle-Leaves (read_marker store json 0) _ (read_marker-Leaves 0) (
        absent_or-Leaves _ _ (λ u j. raised j)
          λ low_doc. bind-Leaves (frontier store json) _ frontier-Leaves λ last u j.
            elim (Bool-cases (last == 0)) [
              | inl only ↦ rw only (returned j)
              | inr later ↦ rw later (read_marker-Leaves last u j)
            ])

    start_at-Leaves : (o : Option ℕ) → Leaves (start_at store json o)
    start_at-Leaves none = gallop_discover-Leaves
    start_at-Leaves (some hint) =
        handle-Leaves (read_marker store json hint) _ (read_marker-Leaves hint)
          (absent_or-Leaves _ _ gallop_discover-Leaves λ doc u j. returned j)

    refine-Leaves :
        (n : ℕ) (doc : RootDoc) (generation step : ℕ)
        → Leaves (forward store json n doc generation 1)
        → Leaves (λ w'.
          if step == 1
          then (ok (doc, generation), w')
          else forward store json n doc generation 1 w')
    refine-Leaves n doc generation step again w i = elim (Bool-cases (step == 1)) [
      | inl single ↦ rw single (returned i)
      | inr longer ↦ rw longer (again w i)
    ]

    forward-Leaves :
        (n : ℕ) (doc : RootDoc) (generation step : ℕ)
        → Leaves (forward store json n doc generation step)
    unfolding forward
    forward-Leaves zero doc generation step w i = returned i
    forward-Leaves (suc n) doc generation step w i =
        let refined = refine-Leaves n doc generation step (forward-Leaves n doc generation 1) in
        elim (Bool-cases (ltb max_generation (generation + step))) [
          | inl above ↦ rw above (refined w i)
          | inr fits ↦ rw fits (
              handle-Leaves (read_marker store json (generation + step)) _
                (read_marker-Leaves (generation + step))
                (absent_or-Leaves _ _ refined λ nxt u j.
                  forward-Leaves n nxt (generation + step) (min (step * 2) gallop_cap) u j)
                w i)
        ]

    pub resolve_head-Leaves : Leaves (resolve_head store json)
    unfolding resolve_head
    resolve_head-Leaves = bind-Leaves (hint_generation store json) _ hint_generation-Leaves λ hint.
        bind-Leaves (start_at store json hint) _ (start_at-Leaves hint)
          λ doc. forward-Leaves probe_cap doc doc.generation 1
