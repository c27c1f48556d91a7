-- ===== src/Session/Transactions.antt =====
-- `Lake.transaction`: the base is fetched, the block runs on a copy, and what it recorded is
-- committed.
use ducklake_serverless.Base.{
  ◌≢◌, inl, inr, Text, Bytes, Option, Option-cases, List, [], ◌∷◌, ◌++◌, Bool-cases, any,
}
use ducklake_serverless.Errors.{err, out_of_fuel, lift, Post}
use ducklake_serverless.Models.Keys.{Uuid}
use ducklake_serverless.Models.RootDoc.{IsFaithful}
use ducklake_serverless.Models.Changeset.{Statement}
use ducklake_serverless.Recorder.{
  Sqlglot, record_statement, classify, classify_tree, only_tree, among, volatile_functions,
  function_names,
}
use ducklake_serverless.Store.Markers.{Present, IsDense, Later, KeepsMarkers}
use ducklake_serverless.Store.Keeps.{
  Keeps, pure-Keeps, bind-Keeps, lift-Keeps, after-KeepsWith, bind-KeepsWith,
}
use ducklake_serverless.Root.Reading.{Committed-Later}
use ducklake_serverless.Generation.Keeps.{IsLocal}
use ducklake_serverless.Commit.Hooks.{HostKeeps, IsCommit}
use ducklake_serverless.Session.{
  Lake, sql, run_block, writable_copy, fetch_current_base, transaction,
}
use ducklake_serverless.Session.Commits.{
  EngineKeeps, IsCurrent, writable_copy-Keeps, fetch_current_base_keeps, commit_commits,
}

module _ {W Connection : Type 0} (lake : Lake W Connection) (body_at : W → Text → Option Bytes)
    {Fails : Type 0} (laws : KeepsMarkers lake.services.json body_at lake.services.store Fails)
    (engine : EngineKeeps lake body_at) (local : IsLocal lake.services.json body_at lake.workdir)
    {Expr : Type 0} (sqlglot : Sqlglot Expr) where
  record_statement-fails :
      (statement : Text) (params : List Text)
      → record_statement sqlglot statement params ≢ err out_of_fuel
  unfolding record_statement classify classify_tree
  record_statement-fails statement params e =
      elim (Option-cases (only_tree sqlglot (sqlglot.parse statement))) [
        | inl bad ↦ absurd (cc (rw bad at e))
        | inr (tree, good) ↦
            elim (Bool-cases (any (among volatile_functions) (function_names sqlglot tree))) [
              | inl volatile ↦ absurd (cc (rw (good, volatile) at e))
              | inr fine ↦ absurd (cc (rw (good, fine) at e))
            ]
      ]

  sql-Keeps :
      (c : Connection) (statement : Text) (params : List Text) (recorded : List Statement)
      → Keeps lake.services.json body_at (sql lake sqlglot c statement params recorded)
  unfolding sql
  sql-Keeps c statement params recorded =
      bind-Keeps lake.services.json body_at (lift (record_statement sqlglot statement params)) _
        (lift-Keeps lake.services.json body_at (record_statement sqlglot statement params)
          (record_statement-fails statement params))
        λ stmt.
          bind-Keeps lake.services.json body_at (lake.engine.execute c statement params) _
            (engine.execute_law c statement params)
            λ rows. pure-Keeps lake.services.json body_at (rows, recorded ++ stmt ∷ [])

  run_block-Keeps :
      (c : Connection) (block : List (Text × List Text)) (recorded : List Statement)
      → Keeps lake.services.json body_at (run_block lake sqlglot c block recorded)
  unfolding run_block
  run_block-Keeps c [] recorded = pure-Keeps lake.services.json body_at recorded
  run_block-Keeps c ((statement, params) ∷ block) recorded =
      bind-Keeps lake.services.json body_at (sql lake sqlglot c statement params recorded) _
        (sql-Keeps c statement params recorded) λ r. run_block-Keeps c block r.1

  module _ {Drawn : Uuid → Type 0} (host : HostKeeps lake.services body_at Drawn)
      (faithful : IsFaithful lake.services.json) where
    -- If the store keeps the laws of `KeepsMarkers`, DuckDB, the host's calls and the working
    -- directory keep the markers, JSON reads back what it wrote, the lake is dense and has a
    -- first generation, then a transaction of any statements ends. It returns a result only if
    -- the marker of the result's generation is in the lake with the result's UUID, one that this
    -- transaction itself has drawn (any predicate holds of it that holds of all that its `uuid4`
    -- returns), after at most `max_attempts` attempts (one, if that is 0); otherwise it raises an
    -- error of the program. No marker is lost meanwhile.
    pub transaction_commits :
        (block : List (Text × List Text)) (w : W)
        → IsDense lake.services.json body_at w
        → Present lake.services.json body_at w 0
        → Post
            (λ r w'.
              Later lake.services.json body_at w w'
              × IsCommit lake.services body_at Drawn lake.max_attempts r w')
            (λ e w'. Later lake.services.json body_at w w' × (e ≢ out_of_fuel))
            (transaction lake sqlglot block w)
    unfolding transaction
    transaction_commits block w d first =
        bind-KeepsWith lake.services.json body_at {P = IsCurrent lake body_at}
          {R = IsCommit lake.services body_at Drawn lake.max_attempts} w (fetch_current_base lake) _
          (fetch_current_base_keeps lake body_at laws engine local w d first)
          λ r v l c.
            after-KeepsWith lake.services.json body_at
              {R = IsCommit lake.services body_at Drawn lake.max_attempts} v
              (writable_copy lake r.1 (λ connection. run_block lake sqlglot connection block [])) _
              l.dense
              (writable_copy-Keeps lake body_at laws engine local r.1
                (λ connection. run_block lake sqlglot connection block [])
                (λ connection. run_block-Keeps connection block []))
              λ b u l'.
                commit_commits lake body_at laws engine local host faithful b.1 r.0
                  (record { statements = b.0 }) u l'.dense
                  (Committed-Later lake.services.json body_at l' c.0)
