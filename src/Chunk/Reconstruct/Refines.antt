-- ===== src/Chunk/Reconstruct/Refines.antt =====
-- The windows write what a direct assembly of the entries gives.
use mathlib.Core.List.{append_assoc, append-nil}
use ducklake_serverless.Base.{
  ℕ, zero, suc, ◌+◌, ◌≤◌, ◌≡◌, inl, inr, refl, ap, sym, ◌∙◌, arith, Text, Bytes, text_eq,
  text_eq_iff, text_eq_refl, Option, none, some, Option-cases, List, [], ◌∷◌, ◌++◌, Bool-cases, any,
  leb, ==_iff, leb→le, length, take, drop, length-drop, length-take, min, All-take, All-drop,
  All-append, All,
}
use ducklake_serverless.Errors.{Error, external_service, Exec, Post, returned, Post-bind}
use ducklake_serverless.Store.{ObjectStore}
use ducklake_serverless.Chunk.Manifest.{Manifest, ManifestEntry}
use ducklake_serverless.Chunk.Build.Packing.{assemble}
use ducklake_serverless.Chunk.Reconstruct.{
  window_packs, ordered_from, position_in, body_get, Progress, fetch_back, write_entry,
  write_entries, write_windows, reconstruct,
}
use ducklake_serverless.Chunk.Reconstruct.Order.{
  next_order, Placed, ordered_from-Placed, assemble-Assembled,
}
use ducklake_serverless.Chunk.Reconstruct.Fetches.{
  ServesPacks, HasOwnHash, Holds, SlotHolds, InStore, fetch-Post, fetch_all-Post, body_get-Holds,
}

module _ {W : Type 0} (store : ObjectStore W) (sha256 : Bytes → Text)
    (pack_at : Text → Option Bytes) (Stays : W → Type 0) (Fails : Type 0)
    (serves : ServesPacks store pack_at Stays Fails) (own_hash : HasOwnHash sha256 pack_at) where
  abbrev Failed : Error → W → Type 0
  Failed e w = (e ≡ external_service) × Fails

  -- What is written, with what is left assembled, is the payload.
  abbrev Continues : Bytes → Progress → Type 0
  Continues payload p =
      SlotHolds pack_at p.back_ref
      × (rest : Bytes) × (assemble pack_at p.left ≡ some rest)
      × (p.written ++ rest ≡ payload)

  -- A window stops only at a pack of a later one.
  abbrev StopsAt : List Text → ℕ → List ManifestEntry → Type 0
  StopsAt ordered limit [] = Unit
  StopsAt ordered limit (e ∷ es) =
      (limit ≤ position_in ordered e.pack_sha256) × Placed ordered (e ∷ es)

  abbrev WindowDone : List Text → Bytes → ℕ → Progress → W → Type 0
  WindowDone ordered payload limit p u =
      Stays u × Continues payload p × StopsAt ordered limit p.left

  fetch_back-Post :
      (sha : Text) (body : Bytes) (slot : Option (Text × Bytes)) (w : W)
      → pack_at sha ≡ some body
      → SlotHolds pack_at slot
      → Stays w
      → Post (λ r u. Stays u × (r ≡ (sha, body))) Failed (fetch_back store sha256 sha slot w)
  fetch_back-Post sha body none w there holds stays =
      fetch-Post store sha256 pack_at Stays Fails serves own_hash sha body w there stays
  fetch_back-Post sha body (some (k, b)) w there holds stays = elim (Bool-cases (text_eq k sha)) [
    | inl same ↦
        let is = (text_eq_iff k sha).0 same in
        let same_body : b ≡ body = cc (is, holds, there) in
        rw same (returned (stays, rw (is, same_body) refl))
    | inr other ↦
        rw other
          (fetch-Post store sha256 pack_at Stays Fails serves own_hash sha body w there stays)
  ]

  -- An entry is written from its pack, and the rest follows.
  write_entry-Post :
      (Q : Progress → W → Type 0) (go_on : Progress → Exec W Progress) (e : ManifestEntry)
      (es : List ManifestEntry) (slot : Option (Text × Bytes)) (written payload rest body : Bytes)
      (w : W)
      → pack_at e.pack_sha256 ≡ some body
      → assemble pack_at (e ∷ es) ≡ some rest
      → written ++ rest ≡ payload
      → ((written' rest' : Bytes)
          → assemble pack_at es ≡ some rest'
          → written' ++ rest' ≡ payload
          → Post Q Failed (go_on (record { left = es; back_ref = slot; written = written' }) w))
      → Post Q Failed (write_entry store sha256 go_on es e slot written body w)
  write_entry-Post Q go_on e es slot written payload rest body w there a j k =
      let h = assemble-Assembled pack_at e es rest a in
      let same : body ≡ h.body = cc (there, h.found) in
      rw (same, (==_iff (length (take e.length (drop e.pack_offset h.body))) e.length).1 h.whole)
        (k (written ++ take e.length (drop e.pack_offset h.body)) h.rest h.after (
          append_assoc written (take e.length (drop e.pack_offset h.body)) h.rest
          ∙ ap (λ l. written ++ l) (sym h.joined)
          ∙ j))

  module _ (ordered : List Text) (payload : Bytes) where
    abbrev go_on : List (Text × Bytes) → ℕ → List ManifestEntry → Progress → Exec W Progress
    go_on bodies limit es p u =
        write_entries store sha256 ordered bodies limit es p.back_ref p.written u

    write_entries-Post :
        (bodies : List (Text × Bytes)) (limit : ℕ) (es : List ManifestEntry)
        (slot : Option (Text × Bytes)) (written rest : Bytes) (w : W)
        → All (Holds pack_at) bodies
        → SlotHolds pack_at slot
        → Stays w
        → Placed ordered es
        → assemble pack_at es ≡ some rest
        → written ++ rest ≡ payload
        → Post
            (WindowDone ordered payload limit)
            Failed
            (write_entries store sha256 ordered bodies limit es slot written w)
    unfolding write_entries
    write_entries-Post bodies limit [] slot written rest w holds slot_holds stays placed a j =
        returned (stays, (slot_holds, rest, a, j), tt)
    write_entries-Post bodies limit (e ∷ es) slot written rest w holds slot_holds stays placed a j =
        elim (Option-cases (body_get bodies e.pack_sha256)) [
          | inr (body, here) ↦ rw here (
              write_entry-Post (WindowDone ordered payload limit) (go_on bodies limit es) e es slot
                written payload rest body w
                (body_get-Holds store sha256 pack_at Stays Fails serves own_hash bodies
                  e.pack_sha256 body holds here)
                a j
                λ written' rest' a' j'.
                  write_entries-Post bodies limit es slot written' rest' w holds slot_holds stays
                    placed.1 a' j')
          | inl elsewhere ↦
              rw elsewhere (elim (Bool-cases (leb limit (position_in ordered e.pack_sha256))) [
                | inl later ↦ rw later (
                    returned (
                      stays,
                      (slot_holds, rest, a, j),
                      (leb→le limit (position_in ordered e.pack_sha256) later, placed),
                    ))
                | inr earlier ↦
                    let h = assemble-Assembled pack_at e es rest a in
                    rw earlier (
                      Post-bind
                        (fetch_back-Post e.pack_sha256 h.body slot w h.found slot_holds stays)
                        (λ r u k. rw (k.1) (
                          write_entry-Post (WindowDone ordered payload limit)
                            (go_on bodies limit es) e es (some (e.pack_sha256, h.body)) written
                            payload rest h.body u h.found a j
                            λ written' rest' a' j'.
                              write_entries-Post bodies limit es (some (e.pack_sha256, h.body))
                                written' rest' u holds h.found k.0 placed.1 a' j'))
                        λ x u k. k)
              ])
        ]

    StopsAt-Placed :
        (start : ℕ) (es : List ManifestEntry) → StopsAt ordered start es → Placed ordered es
    StopsAt-Placed start [] h = tt
    StopsAt-Placed start (e ∷ es) h = h.1

    -- Behind the last window nothing is left.
    finished :
        (start : ℕ) (p : Progress)
        → length ordered ≤ start
        → Continues payload p
        → StopsAt ordered start p.left
        → p.written ≡ payload
    finished start p past continues stops = none_left p.left refl stops
      where
        none_left :
            (es : List ManifestEntry) → p.left ≡ es → StopsAt ordered start es → p.written ≡ payload
        none_left [] is h =
            let (_, rest, a, j) = continues in
            let empty : rest ≡ [] = unfold assemble in cc (is, a) in
            sym (append-nil p.written) ∙ ap (λ l. p.written ++ l) (sym empty) ∙ j
        none_left (e ∷ es) is h = absurd (omega (arith, h.0, h.1.0))

    -- A window that is not full is the last one.
    StopsAt-next :
        (start n : ℕ) (es : List ManifestEntry)
        → length ordered ≤ start + n
        → StopsAt ordered (start + min window_packs n) es
        → StopsAt ordered (start + window_packs) es
    StopsAt-next start n [] past h = tt
    StopsAt-next start n (e ∷ es) past h = (ground (arith, h.0, h.1.0), h.1)

    write_windows-Post :
        (n start : ℕ) (rest : List Text) (p : Progress) (w : W)
        → length rest ≤ n
        → length ordered ≤ start + length rest
        → All (InStore pack_at) rest
        → Stays w
        → Continues payload p
        → StopsAt ordered start p.left
        → Post
            (λ p' u. Stays u × (p'.written ≡ payload))
            Failed
            (write_windows store sha256 ordered n start rest p w)
    unfolding write_windows
    write_windows-Post zero start [] p w fuel all_in there stays continues stops =
        returned (stays, finished start p (omega arith) continues stops)
    write_windows-Post zero start (k ∷ ks) p w fuel all_in there stays continues stops =
        absurd (omega arith)
    write_windows-Post (suc n) start [] p w fuel all_in there stays continues stops =
        returned (stays, finished start p (omega arith) continues stops)
    write_windows-Post (suc n) start (k ∷ ks) p w fuel all_in there stays continues stops =
        Post-bind
          (fetch_all-Post store sha256 pack_at Stays Fails serves own_hash
            (take window_packs (k ∷ ks)) w (All-take (InStore pack_at) window_packs (k ∷ ks) there)
            stays)
          (λ bodies u h.
            Post-bind
              (write_entries-Post bodies (start + length (take window_packs (k ∷ ks))) p.left
                p.back_ref p.written continues.1 u h.1 continues.0 h.0
                (StopsAt-Placed start p.left stops) continues.2 continues.3)
              (λ p' v g.
                write_windows-Post n (start + window_packs) (drop window_packs (k ∷ ks)) p' v
                  (omega (arith, length-drop window_packs (k ∷ ks)))
                  (omega (arith, length-drop window_packs (k ∷ ks)))
                  (All-drop (InStore pack_at) window_packs (k ∷ ks) there) g.0 g.1
                  (StopsAt-next start (length (k ∷ ks)) p'.left all_in
                    (rw (← length-take window_packs (k ∷ ks)) g.2)))
              λ e v g. g)
          λ e u h. h

  next_order-InStore :
      (acc : List Text) (sha : Text)
      → All (InStore pack_at) acc
      → (InStore pack_at) sha
      → All (InStore pack_at) (next_order acc sha)
  next_order-InStore acc sha h k = elim (Bool-cases (any (text_eq sha) acc)) [
    | inl old ↦ rw old h
    | inr new ↦ rw new (All-append (InStore pack_at) acc (sha ∷ []) h (k, tt))
  ]

  ordered_from-InStore :
      (es : List ManifestEntry) (acc : List Text) (bytes : Bytes)
      → All (InStore pack_at) acc
      → assemble pack_at es ≡ some bytes
      → All (InStore pack_at) (ordered_from acc es)
  unfolding ordered_from
  ordered_from-InStore [] acc bytes h a = h
  ordered_from-InStore (e ∷ es) acc bytes h a =
      let s = assemble-Assembled pack_at e es bytes a in
      ordered_from-InStore es (next_order acc e.pack_sha256) s.rest
        (next_order-InStore acc e.pack_sha256 h (s.body, s.found)) s.after

  StopsAt-start :
      (ordered : List Text) (es : List ManifestEntry) → Placed ordered es → StopsAt ordered 0 es
  StopsAt-start ordered [] h = tt
  StopsAt-start ordered (e ∷ es) h = (omega arith, h)

  -- If packs hash to their names and a GET of one returns it as long as they are there, and the
  -- entries assemble to bytes with the hash that the manifest names, then `reconstruct` ends and
  -- returns just these bytes, whatever the windows and the slot for back references; it raises
  -- nothing but ExternalServiceError, and that only where a GET may fail.
  pub reconstruct-assemble :
      (manifest : Manifest) (payload : Bytes) (w : W)
      → assemble pack_at manifest.entries ≡ some payload
      → sha256 payload ≡ manifest.file_sha256
      → Stays w
      → Post
          (λ out u. Stays u × (out ≡ payload))
          (λ e u. (e ≡ external_service) × Fails)
          (reconstruct store sha256 manifest w)
  unfolding reconstruct
  reconstruct-assemble manifest payload w a hashed stays =
      let ordered = ordered_from [] manifest.entries in
      let placed = ordered_from-Placed manifest.entries [] ordered (λ sha h. h) in
      Post-bind
        (write_windows-Post ordered payload (length ordered) 0 ordered
          (record { left = manifest.entries; back_ref = none; written = [] }) w (omega arith)
          (omega arith) (ordered_from-InStore manifest.entries [] payload tt a) stays
          (tt, payload, a, refl) (StopsAt-start ordered manifest.entries placed))
        (λ p u h. rw (h.1, hashed, text_eq_refl manifest.file_sha256) (returned (h.0, refl)))
        λ e u h. h
