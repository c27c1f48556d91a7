-- ===== src/Rebase.antt =====
-- rebase.py: replay or abort after a lost commit race.
pub mod Decision
use ducklake_serverless.Base.{ℕ, ltb, leb, Bool, true, false, not, ◌&&◌, any, if◌then◌else◌}
use ducklake_serverless.Models.Changeset.{
  Changeset, ConflictPolicy, append_only_replay, replay_all, abort_all, RebaseDecision, replay,
  abort, attempts_exhausted, contains_ddl, policy_abort_all, empty_changeset,
  contains_state_dependent, mixes_reads_with_writes, state_dependent_dml, has_class, has_ddl,
  has_reads, nonempty, class_eq,
}

-- `policy is …`
unfoldable pub is_abort_all : ConflictPolicy → Bool
is_abort_all abort_all = true
is_abort_all _ = false

unfoldable pub is_replay_all : ConflictPolicy → Bool
is_replay_all replay_all = true
is_replay_all _ = false

-- `has_state_dependent`, the local of `decide_rebase`.
unfoldable pub has_state_dependent : Changeset → Bool
unfolding class_eq
has_state_dependent c = any (has_class state_dependent_dml) c.statements

unfoldable pub decide_rebase : Changeset → ConflictPolicy → ℕ → ℕ → RebaseDecision
unfolding is_abort_all is_replay_all
decide_rebase changeset policy attempt max_attempts =
    if leb max_attempts attempt
    then abort attempts_exhausted
    else if has_ddl changeset
    then abort contains_ddl
    else if is_abort_all policy
    then abort policy_abort_all
    else if not (nonempty changeset.statements)
    then abort empty_changeset
    else if has_state_dependent changeset && not (is_replay_all policy)
    then abort contains_state_dependent
    else if has_reads changeset && not (is_replay_all policy)
    then abort mixes_reads_with_writes
    else replay
