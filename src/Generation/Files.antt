-- ===== src/Generation/Files.antt =====
-- The entries of the pristine cache and its files, through every change of them.
use mathlib.Core.Path.{subst}
use mathlib.Core.List.{append_cancel_left, append_cancel_right}
use ducklake_serverless.Base.{
  ◌≤◌, ◌≡◌, inl, inr, refl, sym, ◌∙◌, ap, arith, Text, Bytes, text, some, Option-cases, [], ◌∷◌,
  ◌++◌, Bool-cases, ltb, length, text_eq, text_eq_iff, All, All-append, Dict, dict_get, dict_set,
  dict_pop, get-set_same, get-set_other, get-pop_same, get-pop_other,
}
use ducklake_serverless.Errors.{ok}
use ducklake_serverless.Models.Keys.{generation_text, uuid_text, payload_prefix}
use ducklake_serverless.Models.Keys.RoundTrip.{format_payload_key-eq-ok}
use ducklake_serverless.Models.RootDoc.{RootDoc, payload_key}
use ducklake_serverless.Generation.{
  GenerationCache, pristine_path, move_to_end, evict, used, pristine_cache_size,
}

-- Files of different payloads have different names.
pristine_path-injective :
    (d e : RootDoc) (k l : Text)
    → payload_key d ≡ ok k
    → payload_key e ≡ ok l
    → pristine_path d ≡ pristine_path e
    → k ≡ l
pristine_path-injective d e k l p q same =
    let middle =
      append_cancel_right (generation_text d.generation ++ (text "-" ++ uuid_text d.payload_uuid))
        (generation_text e.generation ++ (text "-" ++ uuid_text e.payload_uuid)) (text ".duckdb")
        (append_cancel_left (text "pristine-") _ _ same) in
    (format_payload_key-eq-ok d.generation d.payload_uuid k p).1
    ∙ ap (λ rest. payload_prefix ++ rest) middle
    ∙ sym (format_payload_key-eq-ok e.generation e.payload_uuid l q).1

module _ {A : Type 0} (P : Text × A → Type 0) where
  pub All-get : (key : Text) (v : A) (d : Dict A) → All P d → dict_get key d ≡ some v → P (key, v)
  unfolding dict_get
  All-get key v [] h e = absurd (cc e)
  All-get key v ((k, u) ∷ d) h e = elim (Bool-cases (text_eq k key)) [
    | inl same ↦
        let k_is = (text_eq_iff k key).0 same in
        let u_is : some u ≡ some v = rw same at e in subst P (cc (k_is, u_is)) h.0
    | inr other ↦ All-get key v d h.1 (rw other at e)
  ]

  pub All-set : (key : Text) (v : A) (d : Dict A) → All P d → P (key, v) → All P (dict_set key v d)
  unfolding dict_set
  All-set key v [] h p = (p, tt)
  All-set key v ((k, u) ∷ d) h p = elim (Bool-cases (text_eq k key)) [
    | inl same ↦ rw same (subst (λ x. P (x, v)) (sym ((text_eq_iff k key).0 same)) p, h.1)
    | inr other ↦ rw other (h.0, All-set key v d h.1 p)
  ]

  All-pop : (key : Text) (d : Dict A) → All P d → All P (dict_pop key d)
  unfolding dict_pop
  All-pop key [] h = tt
  All-pop key ((k, u) ∷ d) h = elim (Bool-cases (text_eq k key)) [
    | inl same ↦ rw same (All-pop key d h.1)
    | inr other ↦ rw other (h.0, All-pop key d h.1)
  ]

-- An entry maps the key of some payload to the path of its file.
abbrev pub IsNamed : Text × Text → Type 0
IsNamed (key, path) = (doc : RootDoc) × (payload_key doc ≡ ok key) × (path ≡ pristine_path doc)

move_to_end-IsNamed : (key : Text) (d : Dict Text) → All IsNamed d → All IsNamed (move_to_end key d)
unfolding move_to_end
move_to_end-IsNamed key d n = elim (Option-cases (dict_get key d)) [
  | inl gone ↦
      let is : move_to_end key d ≡ d = rw (gone, move_to_end) refl in subst (All IsNamed) (sym is) n
  | inr (path, there) ↦
      let is : move_to_end key d ≡ dict_pop key d ++ (key, path) ∷ [] =
        rw (there, move_to_end) refl in
      subst (All IsNamed) (sym is) (
        All-append IsNamed (dict_pop key d) ((key, path) ∷ []) (All-pop IsNamed key d n)
          (All-get IsNamed key path d n there, tt))
]

module _ (Right : Text → Bytes → Type 0) where
  -- The files that have a pristine file's name hold what is right for their payload.
  abbrev pub HoldsRight : Dict Bytes → Type 0
  HoldsRight files =
      (doc : RootDoc) (key : Text) (bytes : Bytes)
      → payload_key doc ≡ ok key
      → dict_get (pristine_path doc) files ≡ some bytes
      → Right key bytes

  pub record IsPristine (c : GenerationCache) : Type 0 where
    pub bounded : length c.pristine ≤ pristine_cache_size
    pub named : All IsNamed c.pristine
    pub holds : HoldsRight c.files

  pub HoldsRight-set :
      (doc : RootDoc) (key : Text) (bytes : Bytes) (files : Dict Bytes)
      → payload_key doc ≡ ok key
      → Right key bytes
      → HoldsRight files
      → HoldsRight (dict_set (pristine_path doc) bytes files)
  HoldsRight-set doc key bytes files is right h doc' key' bytes' is' e =
      elim (Bool-cases (text_eq (pristine_path doc) (pristine_path doc'))) [
        | inl same ↦
            let paths = (text_eq_iff (pristine_path doc) (pristine_path doc')).0 same in
            let there =
              sym (get-set_same (pristine_path doc) bytes files)
              ∙ ap (λ path. dict_get path (dict_set (pristine_path doc) bytes files)) paths
              ∙ e in
            let keys = pristine_path-injective doc doc' key key' is is' paths in
            let contents : bytes ≡ bytes' = cc there in
            subst (λ k. Right k bytes') keys (subst (Right key) contents right)
        | inr other ↦ h doc' key' bytes' is' (
            sym (
              get-set_other (pristine_path doc) (pristine_path doc') bytes files (λ same.
                absurd (cc (other, (text_eq_iff (pristine_path doc) (pristine_path doc')).1 same))))
            ∙ e)
      ]

  pub HoldsRight-pop :
      (path : Text) (files : Dict Bytes) → HoldsRight files → HoldsRight (dict_pop path files)
  HoldsRight-pop path files h doc key bytes is e =
      elim (Bool-cases (text_eq path (pristine_path doc))) [
        | inl same ↦ absurd (
            cc (
              get-pop_same path files,
              ap (λ k. dict_get k (dict_pop path files))
                  ((text_eq_iff path (pristine_path doc)).0 same),
              e,
            ))
        | inr other ↦ h doc key bytes is (
            sym (
              get-pop_other path (pristine_path doc) files
                (λ same. absurd (cc (other, (text_eq_iff path (pristine_path doc)).1 same))))
            ∙ e)
      ]

  evict-IsPristine :
      (d : Dict Text) (files : Dict Bytes)
      → All IsNamed d
      → HoldsRight files
      → IsPristine (evict d files)
  unfolding evict
  evict-IsPristine [] files n h = record { bounded = omega arith; named = tt; holds = h }
  evict-IsPristine (p ∷ ps) files n h =
      elim (Bool-cases (ltb pristine_cache_size (length (p ∷ ps)))) [
        | inl many ↦
            rw many (evict-IsPristine ps (dict_pop p.1 files) n.1 (HoldsRight-pop p.1 files h))
        | inr few ↦ rw few (record { bounded = ground (arith, few); named = n; holds = h })
      ]

  pub used-IsPristine :
      (key : Text) (c : GenerationCache)
      → All IsNamed c.pristine
      → HoldsRight c.files
      → IsPristine (used key c)
  used-IsPristine key c n h =
      evict-IsPristine (move_to_end key c.pristine) c.files (move_to_end-IsNamed key c.pristine n) h
