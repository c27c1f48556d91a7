-- ===== src/Base/Dicts.antt =====
-- Python's dicts with texts as keys: the entries, in the order of insertion.
use ducklake_serverless.Base.Tests.{if◌then◌else◌, Bool-cases}
use ducklake_serverless.Base.Strings.{Text, text_eq, text_eq_iff, text_eq_refl}
use mathlib.Core.Path.{◌≡◌, refl, sym, ap, ◌∙◌}
use mathlib.Core.Logic.{◌≢◌, inl, inr}
use mathlib.Core.Option.{Option, none, some}
use mathlib.Core.List.{List, [], ◌∷◌}

abbrev pub Dict : Type 0 → Type 0
Dict A = List (Text × A)

module _ {A : Type 0} where
  -- `d.get(key)`
  unfoldable pub dict_get : Text → Dict A → Option A
  dict_get key [] = none
  dict_get key ((k, v) ∷ d) = if text_eq k key then some v else dict_get key d

  -- `d[key] = v`: a key that is there keeps its place.
  unfoldable pub dict_set : Text → A → Dict A → Dict A
  dict_set key v [] = (key, v) ∷ []
  dict_set key v ((k, u) ∷ d) =
      let rest = dict_set key v d in if text_eq k key then (k, v) ∷ d else (k, u) ∷ rest

  -- `d.pop(key, None)`
  unfoldable pub dict_pop : Text → Dict A → Dict A
  dict_pop key [] = []
  dict_pop key ((k, u) ∷ d) =
      let rest = dict_pop key d in if text_eq k key then rest else (k, u) ∷ rest

  pub get-set_same : (key : Text) (v : A) (d : Dict A) → dict_get key (dict_set key v d) ≡ some v
  unfolding dict_get dict_set
  get-set_same key v [] = rw (text_eq_refl key) refl
  get-set_same key v ((k, u) ∷ d) = elim (Bool-cases (text_eq k key)) [
    | inl same ↦ rw (same, same) refl
    | inr other ↦ rw (other, other) (get-set_same key v d)
  ]

  pub get-set_other :
      (key other : Text) (v : A) (d : Dict A)
      → key ≢ other
      → dict_get other (dict_set key v d) ≡ dict_get other d
  unfolding dict_get dict_set
  get-set_other key other v [] n = elim (Bool-cases (text_eq key other)) [
    | inl same ↦ absurd (n ((text_eq_iff key other).0 same))
    | inr differs ↦ rw differs refl
  ]
  get-set_other key other v ((k, u) ∷ d) n = elim (Bool-cases (text_eq k key)) [
    | inr differs ↦
        rw differs (ap (λ o. if text_eq k other then some u else o) (get-set_other key other v d n))
    | inl same ↦ elim (Bool-cases (text_eq k other)) [
      | inl both ↦ absurd (n (sym ((text_eq_iff k key).0 same) ∙ (text_eq_iff k other).0 both))
      | inr differs ↦ rw (same, differs) refl
    ]
  ]

  pub get-pop_same : (key : Text) (d : Dict A) → dict_get key (dict_pop key d) ≡ none
  unfolding dict_get dict_pop
  get-pop_same key [] = refl
  get-pop_same key ((k, u) ∷ d) = elim (Bool-cases (text_eq k key)) [
    | inl same ↦ rw same (get-pop_same key d)
    | inr other ↦ rw (other, other) (get-pop_same key d)
  ]

  pub get-pop_other :
      (key other : Text) (d : Dict A)
      → key ≢ other
      → dict_get other (dict_pop key d) ≡ dict_get other d
  unfolding dict_get dict_pop
  get-pop_other key other [] n = refl
  get-pop_other key other ((k, u) ∷ d) n = elim (Bool-cases (text_eq k key)) [
    | inr differs ↦
        rw differs (ap (λ o. if text_eq k other then some u else o) (get-pop_other key other d n))
    | inl same ↦ elim (Bool-cases (text_eq k other)) [
      | inl both ↦ absurd (n (sym ((text_eq_iff k key).0 same) ∙ (text_eq_iff k other).0 both))
      | inr differs ↦ rw (same, differs) (get-pop_other key other d n)
    ]
  ]
