-- ===== src/Models/Changeset.antt =====
-- models.py, `StatementClass` to `RebaseDecision`: what one transaction recorded, and the policies
-- and decisions of a lost race.
use ducklake_serverless.Base.{Text, Bool, true, false, not, ◌&&◌, List, [], ◌∷◌, any, all, filter}

pub data StatementClass : Type 0 where
  blind_append state_dependent_dml ddl read volatile : StatementClass

-- `is`, on the members of the enumeration.
unfoldable pub class_eq : StatementClass → StatementClass → Bool
class_eq blind_append blind_append = true
class_eq state_dependent_dml state_dependent_dml = true
class_eq ddl ddl = true
class_eq read read = true
class_eq volatile volatile = true
class_eq _ _ = false

-- The bound parameters are opaque; a text stands for each.
pub record Statement : Type 0 where
  pub sql : Text
  pub params : List Text
  pub statement_class : StatementClass

pub record Changeset : Type 0 where
  pub statements : List Statement

abbrev pub has_class : StatementClass → Statement → Bool
has_class c s = class_eq s.statement_class c

unfoldable pub has_ddl : Changeset → Bool
unfolding class_eq
has_ddl c = any (has_class ddl) c.statements

unfoldable pub has_reads : Changeset → Bool
unfolding class_eq
has_reads c = any (has_class read) c.statements

-- `bool(writes)`
abbrev pub nonempty : {A : Type 0} → List A → Bool
nonempty [] = false
nonempty (x ∷ xs) = true

unfoldable pub is_blind_append_only : Changeset → Bool
unfolding class_eq
is_blind_append_only c =
    let writes = filter (λ s. not (has_class read s)) c.statements in
    nonempty writes && all (has_class blind_append) writes

pub data ConflictPolicy : Type 0 where
  append_only_replay replay_all abort_all : ConflictPolicy

-- The texts of `Abort.reason`.
pub data Reason : Type 0 where
  attempts_exhausted contains_ddl policy_abort_all empty_changeset : Reason
  contains_state_dependent mixes_reads_with_writes blob_lost_race : Reason

pub data RebaseDecision : Type 0 where
  replay : RebaseDecision
  abort : Reason → RebaseDecision
