-- ===== src/Recorder/Soundness.antt =====
-- Which statements are blind appends, and that nothing else is replayed under the default policy.
use ducklake_serverless.Base.{
  ℕ, ◌≡◌, ◌≢◌, inl, inr, refl, sym, ◌∙◌, ap, arith, Text, Option, some, Option-cases, List, [], ◌∷◌,
  any, all, filter, true, false, Bool-cases, not, All, ◌↔◌,
}
use ducklake_serverless.Errors.{ok, Result-cases}
use ducklake_serverless.Models.Changeset.{
  Statement, StatementClass, Changeset, append_only_replay, replay, blind_append, read, volatile,
  has_class, class_eq, has_reads, is_blind_append_only,
}
use ducklake_serverless.Rebase.{decide_rebase}
use ducklake_serverless.Rebase.Decision.{replay-is_blind_append_only}
use ducklake_serverless.Recorder.{
  TreeKind, insert, Sqlglot, volatile_functions, among, function_names, classify_insert, class_of,
  classify_tree, only_tree, classify, record_statement,
}
use ducklake_serverless.Recorder.Blind.{AppendsBlindly, insert-Blind, Blind-insert, Blind-steady}

module _ {Expr : Type 0} (sqlglot : Sqlglot Expr) where
  Blind-classified :
      (sql : Text) (tree : Expr)
      → sqlglot.parse sql ≡ some (some tree ∷ [])
      → AppendsBlindly sqlglot tree
      → classify sqlglot sql ≡ ok blind_append
  unfolding classify classify_tree only_tree
  Blind-classified sql tree e h =
      rw (e, Blind-steady sqlglot tree h, h.inserts, Blind-insert sqlglot tree h) refl

  of_kind :
      (k : TreeKind) (tree : Expr)
      → class_of sqlglot k tree ≡ blind_append
      → (k ≡ insert) × (classify_insert sqlglot tree ≡ blind_append)
  of_kind insert tree e = (refl, e)
  of_kind k tree e = absurd (cc e)

  insert-ne-volatile : (tree : Expr) → classify_insert sqlglot tree ≢ volatile
  unfolding classify_insert
  insert-ne-volatile tree e = ground arith

  class_of-ne-volatile : (k : TreeKind) (tree : Expr) → class_of sqlglot k tree ≢ volatile
  class_of-ne-volatile insert tree e = insert-ne-volatile tree e
  class_of-ne-volatile k tree e = absurd (cc e)

  only_tree-eq :
      (o : Option (List (Option Expr))) (tree : Expr)
      → only_tree sqlglot o ≡ some tree
      → o ≡ some (some tree ∷ [])
  unfolding only_tree
  only_tree-eq (some (some t ∷ [])) tree e = cc e
  only_tree-eq o tree e = absurd (cc e)

  -- What a successful classification says of the tree.
  classify-eq-ok :
      (sql : Text) (c : StatementClass)
      → classify sqlglot sql ≡ ok c
      → (tree : Expr) × (sqlglot.parse sql ≡ some (some tree ∷ []))
        × (any (among volatile_functions) (function_names sqlglot tree) ≡ false)
        × (c ≡ class_of sqlglot (sqlglot.kind tree) tree)
  unfolding classify classify_tree
  classify-eq-ok sql c e = elim (Option-cases (only_tree sqlglot (sqlglot.parse sql))) [
    | inl many ↦ absurd (cc (rw many at e))
    | inr (tree, one) ↦
        let e' = rw one at e in
        elim (Bool-cases (any (among volatile_functions) (function_names sqlglot tree))) [
          | inl changes ↦ absurd (cc (rw changes at e'))
          | inr steady ↦
              (tree, only_tree-eq (sqlglot.parse sql) tree one, steady, cc (rw steady at e'))
        ]
  ]

  blind_parsed :
      (sql : Text)
      → classify sqlglot sql ≡ ok blind_append
      → (tree : Expr) × (sqlglot.parse sql ≡ some (some tree ∷ [])) × AppendsBlindly sqlglot tree
  blind_parsed sql e =
      let (tree, parsed, steady, is) = classify-eq-ok sql blind_append e in
      let (k, i) = of_kind (sqlglot.kind tree) tree (sym is) in
      (tree, parsed, insert-Blind sqlglot tree k steady i)

  -- A statement is classified as a blind append exactly when it parses to one tree, an INSERT without
  -- an upsert clause and without RETURNING, that calls no volatile function, names no table but
  -- its target, and has no other source than staged files.
  pub classify-AppendsBlindly :
      (sql : Text)
      → (classify sqlglot sql ≡ ok blind_append) ↔ (
          (tree : Expr) × (sqlglot.parse sql ≡ some (some tree ∷ [])) × AppendsBlindly sqlglot tree)
  classify-AppendsBlindly sql = (blind_parsed sql, λ (tree, e, h). Blind-classified sql tree e h)

  -- A statement as `record` makes it.
  abbrev pub IsRecorded : Statement → Type 0
  IsRecorded s = record_statement sqlglot s.sql s.params ≡ ok s

  IsRecorded-class : (s : Statement) → IsRecorded s → classify sqlglot s.sql ≡ ok s.statement_class
  unfolding record_statement
  IsRecorded-class s e = elim (Result-cases (classify sqlglot s.sql)) [
    | inl (c, it) ↦ rw it (ap ok (class_eq_of (rw it at e)))
    | inr (x, it) ↦ absurd (cc (rw it at e))
  ]
    where
      class_eq_of :
          {c : StatementClass}
          → ok (record { sql = s.sql; params = s.params; statement_class = c }) ≡ ok s
          → c ≡ s.statement_class
      class_eq_of h = ground (arith, h)

  never_volatile :
      (l : List Statement) → All IsRecorded l → All (λ s. s.statement_class ≢ volatile) l
  never_volatile [] h = tt
  never_volatile (s ∷ l) h = (
    λ e.
        let (tree, _, _, is) = classify-eq-ok s.sql s.statement_class (IsRecorded-class s h.0) in
        class_of-ne-volatile (sqlglot.kind tree) tree (sym is ∙ e),
    never_volatile l h.1,
  )

  -- Without reads, what is only blind appends is all blind appends.
  all_blind :
      (l : List Statement)
      → any (has_class read) l ≡ false
      → all (has_class blind_append) (filter (λ s. not (has_class read s)) l) ≡ true
      → All (λ s. s.statement_class ≡ blind_append) l
  unfolding class_eq
  all_blind [] r b = tt
  all_blind (s ∷ l) r b = (ground arith, all_blind l (ground arith) (ground arith))

  each_blind :
      (l : List Statement)
      → All IsRecorded l
      → All (λ s. s.statement_class ≡ blind_append) l
      → All
          (λ s.
            (tree : Expr) × (sqlglot.parse s.sql ≡ some (some tree ∷ []))
            × AppendsBlindly sqlglot tree)
          l
  each_blind [] h k = tt
  each_blind (s ∷ l) h k =
      (blind_parsed s.sql (IsRecorded-class s h.0 ∙ ap ok k.0), each_blind l h.1 k.1)

  -- If every statement of a changeset is as `record` makes it, then under the default policy a lost
  -- race replays the changeset only if each statement parses to one tree, an INSERT without an
  -- upsert clause and without RETURNING, that calls no volatile function, names no table but its
  -- target, and has no other source than staged files.
  pub replay-AppendsBlindly :
      (c : Changeset) (attempt max_attempts : ℕ)
      → All IsRecorded c.statements
      → decide_rebase c append_only_replay attempt max_attempts ≡ replay
      → All
          (λ s.
            (tree : Expr) × (sqlglot.parse s.sql ≡ some (some tree ∷ []))
            × AppendsBlindly sqlglot tree)
          c.statements
  unfolding has_reads is_blind_append_only
  replay-AppendsBlindly c a m recorded e =
      let (blind, no_reads) =
        replay-is_blind_append_only c a m (never_volatile c.statements recorded) e in
      each_blind c.statements recorded (all_blind c.statements no_reads (ground arith))
