-- ===== src/Rebase/Decision.antt =====
-- When a lost race is replayed, and what a replay under the default policy can contain.
use ducklake_serverless.Base.{
  ℕ, ◌<◌, ◌≡◌, ◌≢◌, ◌⊎◌, inl, inr, refl, arith, Bool-cases, true, false, List, [], ◌∷◌, any, all,
  filter, not, All, ◌↔◌,
}
use ducklake_serverless.Models.Changeset.{
  Statement, StatementClass, Changeset, ConflictPolicy, append_only_replay, replay_all, abort_all,
  replay, has_ddl, has_reads, nonempty, has_class, class_eq, is_blind_append_only, blind_append,
  state_dependent_dml, ddl, read, volatile,
}
use ducklake_serverless.Rebase.{decide_rebase, has_state_dependent}

-- The conditions under which a changeset may be run again on the winner's generation.
pub record MayReplay (c : Changeset) (p : ConflictPolicy) (attempt max_attempts : ℕ) : Type 0 where
  pub attempts_left : attempt < max_attempts
  pub no_ddl : All (λ s. s.statement_class ≢ ddl) c.statements
  pub not_abort_all : p ≢ abort_all
  pub some_statement : c.statements ≢ []
  pub state_independent :
      (p ≡ replay_all)
      ⊎ (All (λ s. s.statement_class ≢ state_dependent_dml) c.statements
          × All (λ s. s.statement_class ≢ read) c.statements)

-- A test of the classes finds a class just when some statement has it.
class_eq-own : (c : StatementClass) → class_eq c c ≡ true
unfolding class_eq
class_eq-own blind_append = refl
class_eq-own state_dependent_dml = refl
class_eq-own ddl = refl
class_eq-own read = refl
class_eq-own volatile = refl

none_has :
    (c : StatementClass) (l : List Statement)
    → any (has_class c) l ≡ false
    → All (λ s. s.statement_class ≢ c) l
none_has c [] e = tt
none_has c (s ∷ l) e = (
  λ same. absurd (ground (arith, rw same at e, class_eq-own c)),
  none_has c l (ground (arith, e)),
)

class_eq-eq : (a b : StatementClass) → class_eq a b ≡ true → a ≡ b
unfolding class_eq
class_eq-eq blind_append blind_append e = refl
class_eq-eq state_dependent_dml state_dependent_dml e = refl
class_eq-eq ddl ddl e = refl
class_eq-eq read read e = refl
class_eq-eq volatile volatile e = refl
class_eq-eq a b e = absurd (cc e)

class_eq-other : (a b : StatementClass) → a ≢ b → class_eq a b ≡ false
class_eq-other a b n = elim (Bool-cases (class_eq a b)) [
  | inl same ↦ absurd (n (class_eq-eq a b same))
  | inr other ↦ other
]

has_none :
    (c : StatementClass) (l : List Statement)
    → All (λ s. s.statement_class ≢ c) l
    → any (has_class c) l ≡ false
has_none c [] h = refl
has_none c (s ∷ l) h = ground (arith, class_eq-other s.statement_class c h.0, has_none c l h.1)

-- The guards, as tests.
record Guards (c : Changeset) (p : ConflictPolicy) (attempt max_attempts : ℕ) : Type 0 where
  attempts_remain : attempt < max_attempts
  has_no_ddl : has_ddl c ≡ false
  is_no_abort_all : p ≢ abort_all
  is_nonempty : c.statements ≢ []
  is_independent : (p ≡ replay_all) ⊎ ((has_state_dependent c ≡ false) × (has_reads c ≡ false))

decide_rebase-Guards :
    (c : Changeset) (p : ConflictPolicy) (attempt max_attempts : ℕ)
    → (decide_rebase c p attempt max_attempts ≡ replay) ↔ Guards c p attempt max_attempts
unfolding decide_rebase
decide_rebase-Guards c abort_all a m =
    (λ e. absurd (ground arith), λ h. absurd (h.is_no_abort_all refl))
decide_rebase-Guards c p a m = (λ e. ground arith, λ h. ground arith)

Guards-MayReplay :
    (c : Changeset) (p : ConflictPolicy) (a m : ℕ) → Guards c p a m → MayReplay c p a m
unfolding has_ddl has_state_dependent has_reads
Guards-MayReplay c p a m h = record {
  attempts_left = h.attempts_remain;
  no_ddl = none_has ddl c.statements h.has_no_ddl;
  not_abort_all = h.is_no_abort_all;
  some_statement = h.is_nonempty;
  state_independent = elim h.is_independent [
    | inl all ↦ inl all
    | inr (depends, reads) ↦
        inr (none_has state_dependent_dml c.statements depends, none_has read c.statements reads)
  ];
}

MayReplay-Guards :
    (c : Changeset) (p : ConflictPolicy) (a m : ℕ) → MayReplay c p a m → Guards c p a m
unfolding has_ddl has_state_dependent has_reads
MayReplay-Guards c p a m h = record {
  attempts_remain = h.attempts_left;
  has_no_ddl = has_none ddl c.statements h.no_ddl;
  is_no_abort_all = h.not_abort_all;
  is_nonempty = h.some_statement;
  is_independent = elim h.state_independent [
    | inl all ↦ inl all
    | inr (depends, reads) ↦
        inr (has_none state_dependent_dml c.statements depends, has_none read c.statements reads)
  ];
}

-- A lost race is replayed exactly when attempts are left, the changeset has a statement and none of
-- the class DDL, the policy is not abort_all, and the policy is replay_all or no statement has the
-- class STATE_DEPENDENT_DML or READ. So a statement of the class VOLATILE does not keep a changeset
-- from being replayed.
pub decide_rebase-eq-replay :
    (c : Changeset) (p : ConflictPolicy) (attempt max_attempts : ℕ)
    → (decide_rebase c p attempt max_attempts ≡ replay) ↔ MayReplay c p attempt max_attempts
decide_rebase-eq-replay c p a m = (
  λ e. Guards-MayReplay c p a m ((decide_rebase-Guards c p a m).0 e),
  λ h. (decide_rebase-Guards c p a m).1 (MayReplay-Guards c p a m h),
)

-- Without DDL, dependence on the state, reads and volatile statements, only blind appends are left.
all_blind_appends :
    (l : List Statement)
    → any (has_class ddl) l ≡ false
    → any (has_class state_dependent_dml) l ≡ false
    → any (has_class read) l ≡ false
    → All (λ s. s.statement_class ≢ volatile) l
    → all (has_class blind_append) (filter (λ s. not (has_class read s)) l) ≡ true
unfolding class_eq
all_blind_appends [] d s r v = refl
all_blind_appends (x ∷ l) d s r v = ground (arith, all_blind_appends l, v.0)

first_stays :
    (x : Statement) (l : List Statement)
    → any (has_class read) (x ∷ l) ≡ false
    → nonempty (filter (λ s. not (has_class read s)) (x ∷ l)) ≡ true
unfolding class_eq
first_stays x l h = ground arith

blind_only :
    (l : List Statement) (a m : ℕ)
    → All (λ s. s.statement_class ≢ volatile) l
    → Guards (record { statements = l }) append_only_replay a m
    → is_blind_append_only (record { statements = l }) ≡ true
blind_only [] a m v h = absurd (h.is_nonempty refl)
blind_only (x ∷ l) a m v h = elim h.is_independent [
  | inl other ↦ absurd (cc other)
  | inr (depends, reads) ↦
      unfold has_ddl has_reads has_state_dependent is_blind_append_only in
      rw (first_stays x l reads, all_blind_appends (x ∷ l) h.has_no_ddl depends reads v)
]

pub replay-is_blind_append_only :
    (c : Changeset) (attempt max_attempts : ℕ)
    → All (λ s. s.statement_class ≢ volatile) c.statements
    → decide_rebase c append_only_replay attempt max_attempts ≡ replay
    → (is_blind_append_only c ≡ true) × (has_reads c ≡ false)
replay-is_blind_append_only c a m v e =
    let h = (decide_rebase-Guards c append_only_replay a m).0 e in
    (blind_only c.statements a m v h, ground (arith, h.is_independent))
