-- ===== src/Recorder/Blind.antt =====
-- What a blind append is of the tree of a statement, and that `classify_insert` finds just that.
use ducklake_serverless.Base.{
  ℕ, ◌≡◌, ◌⊎◌, ◌++◌, ◌==◌, text_eq, text_eq_iff, text_eq_refl, none, inl, inr, refl, ap, arith,
  Text, Option, some, Option-cases, List, [], ◌∷◌, map, any, Bool, true, false, Bool-cases, not, In,
  any-false, any-eq-false,
}
use ducklake_serverless.Models.Changeset.{blind_append}
use ducklake_serverless.Recorder.{
  Function, Table, insert, Sqlglot, volatile_functions, staged_file_sources, among, function_name,
  function_names, names_of_relations, relation_functions, target_tables, is_read, ids, own_table,
  reads_lake_tables, classify_insert,
}

module _ {Expr : Type 0} (sqlglot : Sqlglot Expr) where
  -- A table of the target, or the target itself.
  abbrev pub IsOfTarget : Expr → Table → Type 0
  IsOfTarget tree t =
      (target : Expr) × (sqlglot.target tree ≡ some target)
      × (u : Table) × (t.id ≡ u.id)
      × (In u (sqlglot.tables target) ⊎ (sqlglot.as_table target ≡ some u))

  -- An INSERT whose rows come from the statement itself and from staged files: its replay writes
  -- the same rows on any generation.
  pub record AppendsBlindly (tree : Expr) : Type 0 where
    pub inserts : sqlglot.kind tree ≡ insert
    pub no_alternative : sqlglot.alternative tree ≡ false
    pub no_conflict : sqlglot.conflict tree ≡ false
    pub no_returning : sqlglot.returning tree ≡ false
    pub not_volatile :
        (f : Function)
        → In f (sqlglot.functions tree)
        → ¬ In (function_name sqlglot f) volatile_functions
    pub reads_no_table :
        (t : Table) → In t (sqlglot.tables tree) → (t.name ≡ []) ⊎ IsOfTarget tree t
    pub staged_sources :
        (t : Table) (f : Function)
        → In t (sqlglot.tables tree)
        → t.function ≡ some f
        → In (function_name sqlglot f) staged_file_sources

  -- A test of every function's name, and of every source's name.
  named :
      (p : Text → Bool) (fs : List Function)
      → any p (map (function_name sqlglot) fs) ≡ any (λ f. p (function_name sqlglot f)) fs
  named p [] = refl
  named p (f ∷ fs) = rw (named p fs) refl

  source :
      (t : Table) (ts : List Table) (f : Function)
      → In t ts
      → t.function ≡ some f
      → In (function_name sqlglot f) (names_of_relations sqlglot ts)
  unfolding names_of_relations
  source t [] f i e = absurd i
  source t (u ∷ ts) f (inl same) e = let e' : u.function ≡ some f = rw same at e in rw e' (inl refl)
  source t (u ∷ ts) f (inr i) e = elim (Option-cases u.function) [
    | inl none_there ↦ rw none_there (source t ts f i e)
    | inr (g, there) ↦ rw there (inr (source t ts f i e))
  ]

  among-eq-true : (names : List Text) (name : Text) → among names name ≡ true → In name names
  unfolding among
  among-eq-true [] name e = absurd (cc e)
  among-eq-true (n ∷ names) name e = elim (Bool-cases (text_eq name n)) [
    | inl same ↦ inl ((text_eq_iff name n).0 same)
    | inr other ↦ inr (among-eq-true names name (unfold among in rw other at e))
  ]

  among-eq-false : (names : List Text) (name : Text) → among names name ≡ false → ¬ In name names
  unfolding among
  among-eq-false names name e i =
      absurd (cc (any-false (text_eq name) names e name i, text_eq_refl name))

  id-In : (l : List ℕ) (n : ℕ) → any (λ i. n == i) l ≡ true → In n l
  id-In [] n e = absurd (cc e)
  id-In (i ∷ l) n e = elim (Bool-cases (n == i)) [
    | inl same ↦ inl (ground (arith, same))
    | inr other ↦ inr (id-In l n (rw other at e))
  ]

  -- The table that an identity comes from.
  table_of :
      (own : Option Table) (l : List Table) (n : ℕ)
      → In n (ids sqlglot l ++ own_table sqlglot own)
      → (u : Table) × (n ≡ u.id) × (In u l ⊎ (own ≡ some u))
  table_of none [] n i = absurd i
  table_of (some u) [] n (inl same) = (u, same, inr refl)
  table_of (some u) [] n (inr i) = absurd i
  table_of own (t ∷ l) n (inl same) = (t, same, inl (inl refl))
  table_of own (t ∷ l) n (inr i) =
      let (u, same, h) = table_of own l n i in
      elim h [ inl there ↦ (u, same, inl (inr there)) | inr it ↦ (u, same, inr it) ]

  target-In :
      (tree : Expr) (t : Table) (o : Option Expr)
      → sqlglot.target tree ≡ o
      → In t.id (target_tables sqlglot o)
      → IsOfTarget tree t
  target-In tree t none e i = absurd i
  target-In tree t (some target) e i =
      let (u, same, h) = table_of (sqlglot.as_table target) (sqlglot.tables target) t.id i in
      (target, e, u, same, h)

  not_read :
      (tree : Expr) (t : Table)
      → is_read sqlglot (target_tables sqlglot (sqlglot.target tree)) t ≡ false
      → (t.name ≡ []) ⊎ IsOfTarget tree t
  not_read tree t e = elim (Bool-cases (text_eq t.name [])) [
    | inl unnamed ↦ inl ((text_eq_iff t.name []).0 unnamed)
    | inr named ↦ inr (
        target-In tree t (sqlglot.target tree) refl
          (id-In (target_tables sqlglot (sqlglot.target tree)) t.id (ground (arith, e, named))))
  ]

  pub insert-Blind :
      (tree : Expr)
      → sqlglot.kind tree ≡ insert
      → any (among volatile_functions) (function_names sqlglot tree) ≡ false
      → classify_insert sqlglot tree ≡ blind_append
      → AppendsBlindly tree
  unfolding classify_insert reads_lake_tables relation_functions function_names
  insert-Blind tree k v e = record {
    inserts = k;
    no_alternative = ground arith;
    no_conflict = ground arith;
    no_returning = ground arith;
    not_volatile = λ f i. among-eq-false volatile_functions (function_name sqlglot f) (
        any-false (λ f. among volatile_functions (function_name sqlglot f)) (sqlglot.functions tree)
          (rw (← named (among volatile_functions) (sqlglot.functions tree)) v) f i);
    reads_no_table = λ t i. not_read tree t (
        any-false (is_read sqlglot (target_tables sqlglot (sqlglot.target tree)))
          (sqlglot.tables tree) (ground arith) t i);
    staged_sources = λ t f i h. among-eq-true staged_file_sources (function_name sqlglot f) (
        ground (
          arith,
          any-false (λ name. not (among staged_file_sources name))
              (names_of_relations sqlglot (sqlglot.tables tree)) (ground arith)
              (function_name sqlglot f) (source t (sqlglot.tables tree) f i h),
        ));
  }

  -- Conversely, nothing in the way of a blind append is found.
  not-among : (names : List Text) (name : Text) → (¬ In name names) → among names name ≡ false
  not-among names name h = elim (Bool-cases (among names name)) [
    | inl there ↦ absurd (h (among-eq-true names name there))
    | inr absent ↦ absent
  ]

  In-among : (names : List Text) (name : Text) → In name names → among names name ≡ true
  In-among names name i = elim (Bool-cases (among names name)) [
    | inl there ↦ there
    | inr absent ↦ absurd (among-eq-false names name absent i)
  ]

  In-id : (l : List ℕ) (n : ℕ) → In n l → any (λ i. n == i) l ≡ true
  In-id (i ∷ l) n (inl same) = ground (arith, same)
  In-id (i ∷ l) n (inr there) = ground (arith, In-id l n there)
  In-id [] n i = absurd i

  table-In :
      (own : Option Table) (l : List Table) (u : Table)
      → (In u l ⊎ (own ≡ some u))
      → In u.id (ids sqlglot l ++ own_table sqlglot own)
  table-In own [] u (inl i) = absurd i
  table-In own [] u (inr e) = rw e (inl refl)
  table-In own (t ∷ l) u (inl (inl same)) = inl (ap (λ (t : Table). t.id) same)
  table-In own (t ∷ l) u (inl (inr i)) = inr (table-In own l u (inl i))
  table-In own (t ∷ l) u (inr e) = inr (table-In own l u (inr e))

  is_read-of :
      (tree : Expr) (t : Table)
      → ((t.name ≡ []) ⊎ IsOfTarget tree t)
      → is_read sqlglot (target_tables sqlglot (sqlglot.target tree)) t ≡ false
  is_read-of tree t (inl unnamed) = rw (unnamed, text_eq_refl []) refl
  is_read-of tree t (inr (target, e, u, same, h)) =
      let found : any (λ i. t.id == i) (target_tables sqlglot (sqlglot.target tree)) ≡ true =
        In-id (target_tables sqlglot (sqlglot.target tree)) t.id
          (rw (e, same) (table-In (sqlglot.as_table target) (sqlglot.tables target) u h)) in
      ground (arith, found)

  all_staged :
      (ts : List Table)
      → ((t : Table) (f : Function)
          → In t ts
          → t.function ≡ some f
          → In (function_name sqlglot f) staged_file_sources)
      → any (λ name. not (among staged_file_sources name)) (names_of_relations sqlglot ts) ≡ false
  unfolding names_of_relations
  all_staged [] h = refl
  all_staged (t ∷ ts) h =
      let rest = all_staged ts λ u f i. h u f (inr i) in
      elim (Option-cases t.function) [
        | inl gone ↦ rw gone rest
        | inr (f, there) ↦
            rw
              (
                there,
                In-among staged_file_sources (function_name sqlglot f) (h t f (inl refl) there),
              )
              rest
      ]

  pub Blind-insert :
      (tree : Expr) → AppendsBlindly tree → classify_insert sqlglot tree ≡ blind_append
  unfolding classify_insert reads_lake_tables relation_functions
  Blind-insert tree h =
      rw
        (
          h.no_alternative,
          h.no_conflict,
          h.no_returning,
          any-eq-false (is_read sqlglot (target_tables sqlglot (sqlglot.target tree)))
              (sqlglot.tables tree) (λ t i. is_read-of tree t (h.reads_no_table t i)),
          all_staged (sqlglot.tables tree) h.staged_sources,
        )
        refl

  pub Blind-steady :
      (tree : Expr)
      → AppendsBlindly tree
      → any (among volatile_functions) (function_names sqlglot tree) ≡ false
  unfolding function_names
  Blind-steady tree h = rw (named (among volatile_functions) (sqlglot.functions tree)) (
      any-eq-false (λ f. among volatile_functions (function_name sqlglot f))
        (sqlglot.functions tree)
        λ f i. not-among volatile_functions (function_name sqlglot f) (h.not_volatile f i))
