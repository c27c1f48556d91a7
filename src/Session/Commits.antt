-- ===== src/Session/Commits.antt =====
-- What a lake and a blob hand to the commit driver, and so what their commits do.
use ducklake_serverless.Base.{
  ℕ, zero, suc, ◌≡◌, ◌≢◌, inl, inr, arith, Text, Bytes, Option, List, [], ◌∷◌, Bool, true,
  Bool-cases, dict_get,
}
use ducklake_serverless.Errors.{
  Result, err, version_mismatch, out_of_fuel, Exec, pure, handle, absent_or, Post, returned, raised,
  Post-weaken, Post-handle, ◌>>=◌, is_object_not_found,
}
use ducklake_serverless.Models.Keys.{Uuid}
use ducklake_serverless.Models.RootDoc.{RootDoc, IsFaithful}
use ducklake_serverless.Models.Changeset.{Statement, Changeset}
use ducklake_serverless.Rebase.Decision.{decide_rebase-eq-replay}
use ducklake_serverless.Store.Markers.{Present, IsDense, Later, KeepsMarkers}
use ducklake_serverless.Store.Keeps.{
  Fallen, Keeps, pure-Keeps, raise-Keeps, bind-Keeps, handle-Keeps, lift-Keeps, after-KeepsWith,
  bind-KeepsWith,
}
use ducklake_serverless.Root.{resolve_head}
use ducklake_serverless.Root.Keeps.{resolve_head-Keeps}
use ducklake_serverless.Root.Reading.{Later-trans, Later-refl, Present-Later, Committed-Later}
use ducklake_serverless.Generation.{fetch_copy, check_hygiene}
use ducklake_serverless.Generation.Keeps.{IsLocal, fetch_copy-Keeps}
use ducklake_serverless.Commit.Policy.Keeps.{transport_policy-Keeps}
use ducklake_serverless.Commit.Hooks.{HostKeeps, HooksKeep, IsBase, IsCommit}
use ducklake_serverless.Commit.Run.{run_commit_commits}
use ducklake_serverless.Session.{
  Lake, check_versions, check_format_unmigrated, fetch_rounds, fetch_current_base, settle_copy,
  writable_copy, execute_all, replay_onto_head, validate, lake_commit, commit, is_pinned,
  pin_duckdb_version, pin_ducklake_format,
}

module _ {W Connection : Type 0} (lake : Lake W Connection)
    (body_at : W → Text → Option Bytes) where
  -- DuckDB works on local files and on data files, and not on markers.
  pub record EngineKeeps : Type 0 where
    pub connect_law : (work : Bytes) → Keeps lake.services.json body_at (lake.engine.connect work)
    pub execute_law :
        (c : Connection) (sql : Text) (params : List Text)
        → Keeps lake.services.json body_at (lake.engine.execute c sql params)
    pub close_law : (c : Connection) → Keeps lake.services.json body_at (lake.engine.close c)
    pub abandon_law : (c : Connection) → Keeps lake.services.json body_at (lake.engine.abandon c)
    pub format_law :
        (work : Bytes) → Keeps lake.services.json body_at (lake.engine.probe_format work)
    pub sidecars_law : (work : Bytes) → Keeps lake.services.json body_at (lake.engine.sidecars work)

  -- The base of a transaction: committed, and of the version that is installed.
  abbrev pub IsCurrent : RootDoc × Bytes → W → Type 0
  IsCurrent r w =
      IsBase lake.services body_at w r.0
      × (is_pinned lake.engine.duckdb_version (dict_get pin_duckdb_version r.0.pins) ≡ true)

module _ {W Connection : Type 0} (lake : Lake W Connection) (body_at : W → Text → Option Bytes)
    {Fails : Type 0} (laws : KeepsMarkers lake.services.json body_at lake.services.store Fails)
    (engine : EngineKeeps lake body_at)
    (local : IsLocal lake.services.json body_at lake.workdir) where
  check_hygiene-fails :
      (wal tmp : Bool) (work : Bytes) → check_hygiene wal tmp work ≢ err out_of_fuel
  unfolding check_hygiene
  check_hygiene-fails wal tmp work e = ground (arith, e)

  check_format_unmigrated-Keeps :
      (work : Bytes) (base : RootDoc)
      → Keeps lake.services.json body_at (check_format_unmigrated lake work base)
  unfolding check_format_unmigrated
  check_format_unmigrated-Keeps work base =
      bind-Keeps lake.services.json body_at (lake.engine.probe_format work) _
        (engine.format_law work)
        λ format. elim (Bool-cases (is_pinned format (dict_get pin_ducklake_format base.pins))) [
          | inl same ↦ rw same (pure-Keeps lake.services.json body_at tt)
          | inr other ↦
              rw other (raise-Keeps lake.services.json body_at version_mismatch (λ e. cc e))
        ]

  validate-Keeps :
      (work : Bytes) (base : RootDoc) → Keeps lake.services.json body_at (validate lake work base)
  unfolding validate
  validate-Keeps work base =
      bind-Keeps lake.services.json body_at (check_format_unmigrated lake work base) _
        (check_format_unmigrated-Keeps work base)
        λ _.
          bind-Keeps lake.services.json body_at (lake.engine.sidecars work) _
            (engine.sidecars_law work)
            λ s.
              lift-Keeps lake.services.json body_at (check_hygiene s.0 s.1 work)
                (check_hygiene-fails s.0 s.1 work)

  execute_all-Keeps :
      (c : Connection) (statements : List Statement)
      → Keeps lake.services.json body_at (execute_all lake c statements)
  unfolding execute_all
  execute_all-Keeps c [] = pure-Keeps lake.services.json body_at tt
  execute_all-Keeps c (s ∷ statements) =
      bind-Keeps lake.services.json body_at (lake.engine.execute c s.sql s.params) _
        (engine.execute_law c s.sql s.params) λ _. execute_all-Keeps c statements

  pub writable_copy-Keeps :
      {A : Type 0} (work : Bytes) (body : Connection → Exec W A)
      → ((c : Connection) → Keeps lake.services.json body_at (body c))
      → Keeps lake.services.json body_at (writable_copy lake work body)
  unfolding writable_copy
  writable_copy-Keeps work body k =
      bind-Keeps lake.services.json body_at (lake.engine.connect work) _ (engine.connect_law work)
        λ c.
          handle-Keeps lake.services.json body_at (body c) (settle_copy lake c) (k c)
            (λ a.
              bind-Keeps lake.services.json body_at (lake.engine.close c) _ (engine.close_law c)
                λ b. pure-Keeps lake.services.json body_at (a, b))
            λ e n.
              bind-Keeps lake.services.json body_at (lake.engine.abandon c) _ (engine.abandon_law c)
                λ _. raise-Keeps lake.services.json body_at e n

  abbrev CurrentPost : W → Result (RootDoc × Bytes) × W → Type 0
  CurrentPost w =
      Post (λ r w'. Later lake.services.json body_at w w' × IsCurrent lake body_at r w')
        (Fallen lake.services.json body_at w)

  fetched :
      (base : RootDoc) (again : Exec W (RootDoc × Bytes)) (w : W)
      → IsDense lake.services.json body_at w
      → IsBase lake.services body_at w base
      → is_pinned lake.engine.duckdb_version (dict_get pin_duckdb_version base.pins) ≡ true
      → ((u : W) → Later lake.services.json body_at w u → CurrentPost u (again u))
      → CurrentPost w (
          handle
            (fetch_copy lake.services lake.workdir base)
            (absent_or again (λ copy. pure (base, copy)))
            w)
  fetched base again w d c pinned k =
      Post-handle (absent_or again (λ copy. pure (base, copy)))
        (fetch_copy-Keeps lake.services body_at laws lake.workdir local base w d)
        (λ copy v l. returned (l, (Committed-Later lake.services.json body_at l c, pinned)))
        λ e v h. elim (Bool-cases (is_object_not_found e)) [
          | inr other ↦ rw other (raised h)
          | inl gone ↦ rw gone (
              Post-weaken (k v h.0) (λ r u x. (Later-trans lake.services.json body_at h.0 x.0, x.1))
                λ e' u x. (Later-trans lake.services.json body_at h.0 x.0, x.1))
        ]

  checked :
      (base : RootDoc) (next : Exec W (RootDoc × Bytes)) (w : W)
      → IsDense lake.services.json body_at w
      → (is_pinned lake.engine.duckdb_version (dict_get pin_duckdb_version base.pins) ≡ true
          → CurrentPost w (next w))
      → CurrentPost w ((check_versions lake base >>= λ _. next) w)
  unfolding check_versions
  checked base next w d k =
      elim (Bool-cases
        (is_pinned lake.engine.duckdb_version (dict_get pin_duckdb_version base.pins))) [
          | inl pinned ↦ rw pinned (k pinned)
          | inr other ↦ rw other (raised (Later-refl lake.services.json body_at d, λ e. cc e))
        ]

  fetch_rounds-Post :
      (n : ℕ) (w : W)
      → IsDense lake.services.json body_at w
      → Present lake.services.json body_at w 0
      → CurrentPost w (fetch_rounds lake n w)
  unfolding fetch_rounds
  fetch_rounds-Post zero w d first = raised (Later-refl lake.services.json body_at d, λ e. cc e)
  fetch_rounds-Post (suc n) w d first =
      bind-KeepsWith lake.services.json body_at {P = λ r u. IsBase lake.services body_at u r.0}
        {R = IsCurrent lake body_at} w (resolve_head lake.services.store lake.services.json) _
        (resolve_head-Keeps lake.services.json body_at lake.services.store laws w d first)
        λ r v l c. checked r.0 _ v l.dense λ pinned. fetched r.0 _ v l.dense c pinned λ u l'.
          fetch_rounds-Post n u l'.dense (
            Present-Later lake.services.json body_at 0 (Later-trans lake.services.json body_at l l')
              first)

  pub fetch_current_base_keeps :
      (w : W)
      → IsDense lake.services.json body_at w
      → Present lake.services.json body_at w 0
      → Post
          (λ r w'. Later lake.services.json body_at w w' × IsCurrent lake body_at r w')
          (λ e w'. Later lake.services.json body_at w w' × (e ≢ out_of_fuel))
          (fetch_current_base lake w)
  unfolding fetch_current_base
  fetch_current_base_keeps w d first = fetch_rounds-Post lake.max_attempts w d first

  replay_onto_head-Post :
      (changeset : Changeset) (w : W)
      → IsDense lake.services.json body_at w
      → Present lake.services.json body_at w 0
      → Post
          (λ r w'. Later lake.services.json body_at w w' × IsBase lake.services body_at w' r.0)
          (Fallen lake.services.json body_at w)
          (replay_onto_head lake changeset w)
  unfolding replay_onto_head
  replay_onto_head-Post changeset w d first =
      bind-KeepsWith lake.services.json body_at {P = IsCurrent lake body_at}
        {R = λ r u. IsBase lake.services body_at u r.0} w (fetch_current_base lake) _
        (fetch_current_base_keeps w d first)
        λ r v l c.
          after-KeepsWith lake.services.json body_at {R = λ r u. IsBase lake.services body_at u r.0}
            v
            (writable_copy lake r.1
              (λ connection. execute_all lake connection changeset.statements))
            _ l.dense
            (writable_copy-Keeps r.1
              (λ connection. execute_all lake connection changeset.statements)
              (λ connection. execute_all-Keeps connection changeset.statements))
            λ b u l'. returned (
              Later-refl lake.services.json body_at l'.dense,
              Committed-Later lake.services.json body_at l' c.0,
            )

  pub lake_commit-HooksKeep :
      (changeset : Changeset)
      → HooksKeep lake.services body_at (lake_commit lake changeset) lake.max_attempts
  lake_commit-HooksKeep changeset = record {
    validate_law = validate-Keeps;
    policy_law = transport_policy-Keeps lake.services body_at laws lake.chunk_threshold;
    decide_law = λ attempt is.
        ((decide_rebase-eq-replay changeset lake.conflict_policy attempt lake.max_attempts).0
          is).attempts_left;
    replay_law = λ attempt is work. replay_onto_head-Post changeset;
  }

  module _ {Drawn : Uuid → Type 0} (host : HostKeeps lake.services body_at Drawn)
      (faithful : IsFaithful lake.services.json) where
    pub commit_commits :
        (work : Bytes) (base : RootDoc) (changeset : Changeset) (w : W)
        → IsDense lake.services.json body_at w
        → IsBase lake.services body_at w base
        → Post
            (λ r w'.
              Later lake.services.json body_at w w'
              × IsCommit lake.services body_at Drawn lake.max_attempts r w')
            (λ e w'. Later lake.services.json body_at w w' × (e ≢ out_of_fuel))
            (commit lake work base changeset w)
    unfolding commit
    commit_commits work base changeset w d c =
        run_commit_commits lake.services body_at laws host faithful (lake_commit lake changeset)
          lake.max_attempts (lake_commit-HooksKeep changeset) base work w d c
