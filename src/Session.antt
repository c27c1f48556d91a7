-- ===== src/Session.antt =====
-- session.py, `Transaction`, `_DuckLakeCommit` and the commits of `Lake`. A work copy is its bytes,
-- and discarding it is nothing. The `LakeConnection` of engine.py, which is DuckDB, is a parameter.
pub mod Streams
pub mod Commits
pub mod Current
pub mod Transactions
pub mod Duckdb
use ducklake_serverless.Base.{
  ℕ, zero, suc, Text, Bytes, text, text_eq, Option, none, some, List, [], ◌∷◌, ◌++◌, Bool, true,
  false, length, dict_get, if◌then◌else◌,
}
use ducklake_serverless.Errors.{
  Error, Result, ok, err, external_service, version_mismatch, assertion, Exec, pure, raise, lift,
  handle, absent_or, ensuring, ◌>>=◌, ◌>>◌,
}
use ducklake_serverless.Models.RootDoc.{RootDoc, Transport, whole}
use ducklake_serverless.Models.Changeset.{Statement, Changeset, ConflictPolicy}
use ducklake_serverless.Rebase.{decide_rebase}
use ducklake_serverless.Recorder.{Sqlglot, record_statement}
use ducklake_serverless.Store.Probe.{require_atomic_create}
use ducklake_serverless.Root.{
  MarkerOutcome, won, lost, absent, read_marker, resolve_head, write_hint,
}
use ducklake_serverless.Generation.{Workdir, fetch_copy, check_hygiene, publish_generation}
use ducklake_serverless.Commit.Services.{Services, CommitContext}
use ducklake_serverless.Commit.Policy.{transport_policy}
use ducklake_serverless.Commit.Driver.{CommitResult, create_marker_resolving, run_commit}

abbrev pub Rows : Type 0
Rows = List (List Text)

-- What is asked of DuckDB. `close` leaves the file, and `sidecars` are the `.wal` and the `.tmp`
-- beside a file.
pub record Engine (W Connection : Type 0) : Type 0 where
  pub duckdb_version : Text
  pub create : Exec W Connection
  pub connect : Bytes → Exec W Connection
  pub connect_read_only : Bytes → Exec W Connection
  pub connect_uri : Text → Exec W Connection
  pub execute : Connection → Text → List Text → Exec W Rows
  pub close : Connection → Exec W Bytes
  pub abandon : Connection → Exec W (Unit {0})
  pub probe_format : Bytes → Exec W Text
  pub sidecars : Bytes → Exec W (Bool × Bool)

-- The fields of `Lake`; `s3_uri` is there for an `S3ObjectStore`.
pub record Lake (W Connection : Type 0) : Type 0 where
  pub services : Services W
  pub workdir : Workdir W
  pub engine : Engine W Connection
  pub conflict_policy : ConflictPolicy
  pub max_attempts : ℕ
  pub chunk_threshold : Option ℕ
  pub s3_uri : Option (Text → Text)
  pub has_credentials : Bool

abbrev pub pin_duckdb_version : Text
pin_duckdb_version = text "duckdb_storage_version"

abbrev pub pin_ducklake_format : Text
pin_ducklake_format = text "ducklake_format_version"

-- A pin that is missing is `None`, and equal to no version.
unfoldable pub is_pinned : Text → Option Text → Bool
is_pinned version none = false
is_pinned version (some pin) = text_eq pin version

module _ {W Connection : Type 0} (lake : Lake W Connection) where
  -- `_check_versions`
  unfoldable pub check_versions : RootDoc → Exec W (Unit {0})
  unfolding dict_get is_pinned
  check_versions root =
      if is_pinned lake.engine.duckdb_version (dict_get pin_duckdb_version root.pins)
      then pure tt
      else raise version_mismatch

  unfoldable pub check_format_unmigrated : Bytes → RootDoc → Exec W (Unit {0})
  unfolding dict_get is_pinned
  check_format_unmigrated work base = do
    work_format ← lake.engine.probe_format work
    if is_pinned work_format (dict_get pin_ducklake_format base.pins)
        then pure tt
        else raise version_mismatch

  -- `for _ in range(self._max_attempts)` of `_fetch_current_base`.
  unfoldable pub fetch_rounds : ℕ → Exec W (RootDoc × Bytes)
  fetch_rounds zero w = (err external_service, w)
  fetch_rounds (suc n) w =
      (do
        (base, _) ← resolve_head lake.services.store lake.services.json
        _ ← check_versions base
        handle (fetch_copy lake.services lake.workdir base)
            (absent_or (λ u. fetch_rounds n u) (λ copy. pure (base, copy))))
        w

  unfoldable pub fetch_current_base : Exec W (RootDoc × Bytes)
  unfolding fetch_rounds
  fetch_current_base = fetch_rounds lake.max_attempts

  -- The end of the `with` block: an error abandons the connection, and goes on.
  abbrev pub settle_copy : {A : Type 0} → Connection → Result A → Exec W (A × Bytes)
  settle_copy connection (ok a) = do work ← lake.engine.close connection; pure (a, work)
  settle_copy connection (err e) = lake.engine.abandon connection >> raise e

  unfoldable pub writable_copy : {A : Type 0} → Bytes → (Connection → Exec W A) → Exec W (A × Bytes)
  writable_copy work body = do
    connection ← lake.engine.connect work
    handle (body connection) (settle_copy connection)

  unfoldable pub execute_all : Connection → List Statement → Exec W (Unit {0})
  execute_all connection [] w = (ok tt, w)
  execute_all connection (s ∷ statements) w =
      (lake.engine.execute connection s.sql s.params >> λ u. execute_all connection statements u) w

  unfoldable pub replay_onto_head : Changeset → Exec W (RootDoc × Bytes)
  unfolding fetch_current_base writable_copy execute_all
  replay_onto_head changeset = do
    (head, work) ← fetch_current_base
    (_, replayed) ← writable_copy work λ connection. execute_all connection changeset.statements
    pure (head, replayed)

  unfoldable pub validate : Bytes → RootDoc → Exec W (Unit {0})
  unfolding check_format_unmigrated check_hygiene
  validate work base = do
    _ ← check_format_unmigrated work base
    (wal, tmp) ← lake.engine.sidecars work
    lift (check_hygiene wal tmp work)

  -- `_DuckLakeCommit`
  abbrev pub lake_commit : Changeset → CommitContext W
  lake_commit changeset = record {
    validate = validate;
    decide_rebase = decide_rebase changeset lake.conflict_policy;
    replay = λ stale_work. replay_onto_head changeset;
    transport_policy = transport_policy lake.services lake.chunk_threshold;
  }

  -- `_commit`
  unfoldable pub commit : Bytes → RootDoc → Changeset → Exec W CommitResult
  unfolding run_commit
  commit work base changeset =
      run_commit lake.services (lake_commit changeset) lake.max_attempts base work

  module _ {Expr : Type 0} (sqlglot : Sqlglot Expr) where
    -- `Transaction.sql`: what is recorded grows when the statement has run.
    unfoldable pub sql :
        Connection → Text → List Text → List Statement → Exec W (Rows × List Statement)
    sql connection statement params recorded = do
      stmt ← lift (record_statement sqlglot statement params)
      rows ← lake.engine.execute connection statement params
      pure (rows, recorded ++ stmt ∷ [])

    -- The block of a `with lake.transaction()`, which calls `sql` with these arguments.
    unfoldable pub run_block :
        Connection → List (Text × List Text) → List Statement → Exec W (List Statement)
    unfolding sql
    run_block connection [] recorded w = (ok recorded, w)
    run_block connection ((statement, params) ∷ block) recorded w =
        (do
          (_, recorded') ← sql connection statement params recorded
          (λ u. run_block connection block recorded' u))
          w

    unfoldable pub transaction : List (Text × List Text) → Exec W CommitResult
    unfolding fetch_current_base writable_copy run_block commit
    transaction block = do
      (base, work) ← fetch_current_base
      (recorded, written) ← writable_copy work λ connection. run_block connection block []
      commit written base (record { statements = recorded })

  -- The connection of `scratch` is abandoned, whatever the block does.
  unfoldable pub scratch : {A : Type 0} → (Connection → Exec W A) → Exec W A
  unfolding fetch_current_base
  scratch block = do
    (_, work) ← fetch_current_base
    connection ← lake.engine.connect work
    ensuring (block connection) (lake.engine.abandon connection)

  abbrev pub after_first : RootDoc → MarkerOutcome → Exec W RootDoc
  after_first doc won = write_hint lake.services.store lake.services.json 0 >> pure doc
  after_first doc lost = read_marker lake.services.store lake.services.json 0
  after_first doc absent = raise assertion

  unfoldable pub bootstrap : Bool → Exec W RootDoc
  unfolding publish_generation
  bootstrap verify_backend = do
    _ ←
        if verify_backend
        then require_atomic_create lake.services.store lake.services.uuid4
        else pure tt
    payload_uuid ← lake.services.uuid4
    connection ← lake.engine.create
    catalog ← lake.engine.close connection
    (wal, tmp) ← lake.engine.sidecars catalog
    _ ← publish_generation lake.services wal tmp catalog 0 payload_uuid
    created_at ← lake.services.now
    writer ← lake.services.writer_info
    format ← lake.engine.probe_format catalog
    let doc : RootDoc = record {
      generation = 0;
      payload_uuid = payload_uuid;
      created_at = created_at;
      writer = writer;
      pins = (pin_duckdb_version, lake.engine.duckdb_version) ∷ (pin_ducklake_format, format) ∷ [];
      transport = whole;
      payload_size = length catalog;
    }
    outcome ← create_marker_resolving lake.services doc payload_uuid 0 lake.max_attempts
    after_first doc outcome
