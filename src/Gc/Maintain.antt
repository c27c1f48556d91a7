-- ===== src/Gc/Maintain.antt =====
-- gc.py, `maintain_data` and `_maintain_locked`: a pass of DuckLake's own maintenance calls. What the
-- calls do is DuckDB's; times are whole seconds, and how one is bound in a statement is a parameter.
use ducklake_serverless.Base.{
  ℕ, ◌-◌, ◌*◌, ℤ, pos, negsuc, Text, text, Option, none, some, List, [], ◌∷◌, Bool, true, false,
  not, ◌&&◌, ◌||◌, ltb, if◌then◌else◌,
}
use ducklake_serverless.Errors.{
  Result, ok, err, input_validation, index_error, Exec, pure, raise, lift, handle, ◌>>=◌, ◌>>◌,
}
use ducklake_serverless.Models.Changeset.{Statement, nonempty}
use ducklake_serverless.Recorder.{Sqlglot}
use ducklake_serverless.Lease.{Lease, acquire, release}
use ducklake_serverless.Session.{Rows, Lake, fetch_current_base, settle_copy, sql, commit, scratch}
use ducklake_serverless.Gc.Deletes.{away, must_renew}

pub record MaintenanceReport : Type 0 where
  pub dry_run : Bool
  pub snapshots_expired : List Text
  pub files_cleaned : List Text
  pub orphans_deleted : List Text

-- `MIN_PHYSICAL_DELAY`, of 15 minutes.
abbrev pub min_physical_delay : ℕ
min_physical_delay = 15 * 60

-- `_column`: the first value of each row.
unfoldable pub column : Rows → Result (List Text)
column [] = ok []
column ([] ∷ rows) = err index_error
column ((value ∷ _) ∷ rows) = elim (column rows) [ ok values ↦ ok (value ∷ values) | err e ↦ err e ]

unfoldable pub report_of : Bool → Rows → Rows → Rows → Result MaintenanceReport
report_of dry_run expired cleaned orphans = elim (column expired) [
  | err e ↦ err e
  | ok snapshots ↦ elim (column cleaned) [
    | err e ↦ err e
    | ok files ↦ elim (column orphans) [
      | err e ↦ err e
      | ok deleted ↦ ok (record {
        dry_run = dry_run;
        snapshots_expired = snapshots;
        files_cleaned = files;
        orphans_deleted = deleted;
      })
    ]
  ]
]

unfoldable pub would_change : MaintenanceReport → Bool
would_change report =
    nonempty report.snapshots_expired
    || (nonempty report.files_cleaned || nonempty report.orphans_deleted)

abbrev pub is_negative : ℤ → Bool
is_negative (pos n) = false
is_negative (negsuc n) = true

-- `now - age`, of an age that is not negative.
abbrev pub before : ℕ → ℤ → ℕ
before now (pos age) = now - age
before now (negsuc age) = now

abbrev pub is_below : ℤ → ℕ → Bool
is_below (pos n) least = ltb n least
is_below (negsuc n) least = true

module _ {W Connection Expr : Type 0} (lake : Lake W Connection) (sqlglot : Sqlglot Expr)
    (lease : Lease W) (bound : ℕ → Text) where
  -- The three dry calls, in `scratch`.
  unfoldable pub probe_calls : ℕ → ℕ → Connection → Exec W (Rows × Rows × Rows)
  probe_calls expire_before physical_before con = do
    expired ←
        lake.engine.execute con
          (text "CALL ducklake_expire_snapshots('lake', dry_run => true, older_than => ?)")
          (bound expire_before ∷ [])
    cleaned ←
        lake.engine.execute con
          (text "CALL ducklake_cleanup_old_files('lake', dry_run => true, older_than => ?)")
          (bound physical_before ∷ [])
    orphans ←
        lake.engine.execute con
          (text "CALL ducklake_delete_orphaned_files('lake', dry_run => true, older_than => ?)")
          (bound physical_before ∷ [])
    pure (expired, cleaned, orphans)

  -- The block of the transaction: the three calls, and the lease held still.
  unfoldable pub delete_calls :
      ℕ → ℕ → Connection → Exec (W × Option Text) ((Rows × Rows × Rows) × List Statement)
  delete_calls expire_before physical_before con = do
    (expired, recorded) ← away (
        sql lake sqlglot con (text "CALL ducklake_expire_snapshots('lake', older_than => ?)")
          (bound expire_before ∷ []) [])
    (cleaned, recorded') ← away (
        sql lake sqlglot con (text "CALL ducklake_cleanup_old_files('lake', older_than => ?)")
          (bound physical_before ∷ []) recorded)
    (orphans, recorded'') ← away (
        sql lake sqlglot con (text "CALL ducklake_delete_orphaned_files('lake', older_than => ?)")
          (bound physical_before ∷ []) recorded')
    _ ← must_renew lake.services.store lease 0
    pure ((expired, cleaned, orphans), recorded'')

  -- `with lake.transaction() as tx`, for a block that uses the lease too.
  unfoldable pub in_transaction :
      {A : Type 0}
      → (Connection → Exec (W × Option Text) (A × List Statement))
      → Exec (W × Option Text) A
  in_transaction block = do
    (base, work) ← away (fetch_current_base lake)
    con ← away (lake.engine.connect work)
    ((a, recorded), written) ← handle (block con) (λ r. away (settle_copy lake con r))
    _ ← away (commit lake written base (record { statements = recorded }))
    pure a

  -- The pass that deletes.
  abbrev pub delete_pass : ℕ → ℕ → Exec (W × Option Text) MaintenanceReport
  delete_pass expire_before physical_before = do
    _ ← must_renew lake.services.store lease 0
    (expired, cleaned, orphans) ← in_transaction (delete_calls expire_before physical_before)
    lift (report_of false expired cleaned orphans)

  unfoldable pub maintain_locked : ℤ → ℤ → Bool → Exec (W × Option Text) MaintenanceReport
  maintain_locked expire_older_than physical_delete_delay dry_run = do
    now ← away lake.services.now
    let expire_before = before now expire_older_than
    let physical_before = before now physical_delete_delay
    (expired, cleaned, orphans) ← away (scratch lake (probe_calls expire_before physical_before))
    probe ← lift (report_of true expired cleaned orphans)
    if dry_run || not (would_change probe)
        then pure probe
        else delete_pass expire_before physical_before

  -- `finally: lease.release()`
  abbrev pub released_pass :
      Result MaintenanceReport × (W × Option Text) → Result (Option MaintenanceReport) × W
  released_pass (ok report, (w, held)) = (release lease held >> pure (some report)) w
  released_pass (err e, (w, held)) = (release lease held >> raise e) w

  unfoldable pub maintain_data : ℕ → ℤ → ℤ → Bool → Bool → Exec W (Option MaintenanceReport)
  maintain_data fuel expire_older_than physical_delete_delay dry_run unsafe_allow_short_delay =
      if is_negative expire_older_than || is_negative physical_delete_delay
      then raise input_validation
      else if not dry_run
          && (is_below physical_delete_delay min_physical_delay && not unsafe_allow_short_delay)
      then raise input_validation
      else (do
        (acquired, held) ← acquire lease fuel none
        if acquired
            then (λ w.
                released_pass
                  (maintain_locked expire_older_than physical_delete_delay dry_run (w, held)))
            else pure none)
