-- ===== src/Commit/Run.antt =====
-- `run_commit` ends: it wins a generation, or it raises.
use mathlib.Core.Path.{subst}
use native.Mathlib.Nat.{add-zero}
use ducklake_serverless.Base.{
  ℕ, zero, suc, ◌+◌, ◌≤◌, ◌<◌, ◌≡◌, ◌≢◌, refl, sym, arith, max, Text, Bytes, Option, none, some,
}
use ducklake_serverless.Errors.{Result, out_of_fuel, Post, returned, raised, Post-weaken}
use ducklake_serverless.Models.Keys.{Uuid, max_generation}
use ducklake_serverless.Models.RootDoc.{RootDoc, Transport, whole, chunked, IsFaithful}
use ducklake_serverless.Models.Changeset.{RebaseDecision, replay, abort}
use ducklake_serverless.Store.Markers.{Present, Committed, IsDense, Later, KeepsMarkers}
use ducklake_serverless.Store.Keeps.{Fallen, after-KeepsWith, bind-KeepsWith}
use ducklake_serverless.Root.Reading.{
  Later-trans, Later-refl, Committed-Later, Present-Later, Committed-Present, Present-below,
}
use ducklake_serverless.Commit.Services.{Services, CommitContext}
use ducklake_serverless.Commit.Publish.{
  PublishOutcome, published_whole, published_chunked, not_landed, publish_resolved,
}
use ducklake_serverless.Commit.Publish.Keeps.{HasTime, publish_resolved-Keeps}
use ducklake_serverless.Commit.Driver.{
  CommitResult, CommitPhase, attempting, committed, aborted, try_create_marker, after_decision,
  after_marker, mark, after_publish, advance, run_phases, run_commit,
}
use ducklake_serverless.Commit.Marker.{HasParent}
use ducklake_serverless.Commit.Winner.{Reported, try_create_marker_reports}
use ducklake_serverless.Commit.Hooks.{HostKeeps, HooksKeep, IsBase, IsCommitted, IsCommit}

module _ {W : Type 0} (services : Services W) (body_at : W → Text → Option Bytes) {Fails : Type 0}
    (laws : KeepsMarkers services.json body_at services.store Fails) {Drawn : Uuid → Type 0}
    (host : HostKeeps services body_at Drawn) (faithful : IsFaithful services.json)
    (ctx : CommitContext W) (max_attempts : ℕ)
    (hooks : HooksKeep services body_at ctx max_attempts) where
  -- What an attempt hands on: a phase that has counted an attempt, or a commit.
  abbrev Advanced : ℕ → CommitPhase → W → Type 0
  Advanced attempt (attempting base work next) w =
      (next ≡ attempt + 1) × (next < max_attempts) × IsBase services body_at w base
  Advanced attempt (committed r) w =
      IsCommitted services body_at Drawn r w × (r.attempts ≡ attempt + 1)
  Advanced attempt (aborted reason) w = Unit {0}

  abbrev AdvancePost : ℕ → W → Result CommitPhase × W → Type 0
  AdvancePost attempt w =
      Post (λ phase w'. Later services.json body_at w w' × Advanced attempt phase w')
        (Fallen services.json body_at w)

  after_decision-Post :
      (work : Bytes) (attempt : ℕ) (decision : RebaseDecision) (w : W)
      → ctx.decide_rebase (attempt + 1) max_attempts ≡ decision
      → IsDense services.json body_at w
      → Present services.json body_at w 0
      → AdvancePost attempt w
          (after_decision services ctx max_attempts work (attempt + 1) decision w)
  after_decision-Post work attempt (abort reason) w is d first =
      returned (Later-refl services.json body_at d, tt)
  after_decision-Post work attempt replay w is d first =
      after-KeepsWith services.json body_at {R = Advanced attempt} w
        (services.backoff (attempt + 1)) _ d
        (λ u d'. Post-weaken (host.backoff_law (attempt + 1) u d') (λ _ v l. l) λ e v h. absurd h)
        λ _ v l.
          bind-KeepsWith services.json body_at {P = λ r u. IsBase services body_at u r.0}
            {R = Advanced attempt} v (ctx.replay work) _
            (hooks.replay_law (attempt + 1) is work v l.dense
              (Present-Later services.json body_at 0 l first))
            λ r u l' c. returned (
              Later-refl services.json body_at l'.dense,
              (refl, hooks.decide_law (attempt + 1) is, c),
            )

  after_marker-Post :
      (work : Bytes) (attempt : ℕ) (doc : RootDoc) (o : Option CommitResult) (w : W)
      → IsDense services.json body_at w
      → Drawn doc.payload_uuid
      → Reported services.json body_at doc attempt o w
      → AdvancePost attempt w (after_marker services ctx max_attempts work attempt o w)
  after_marker-Post work attempt doc (some r) w d drawn h =
      let (g, u, a, (e, c, own)) = h in
      returned (
        Later-refl services.json body_at d,
        (
          (
            e,
            subst (λ g. Committed services.json body_at w g e) (sym g) c,
            own,
            subst Drawn (sym u) drawn,
          ),
          a,
        ),
      )
  after_marker-Post work attempt doc none w d drawn (e, c, other) =
      after_decision-Post work attempt (ctx.decide_rebase (attempt + 1) max_attempts) w refl d (
        Present-below services.json body_at doc.generation 0 d
          (rw add-zero (Committed-Present services.json body_at c)))

  next-HasParent :
      (base doc : RootDoc)
      → doc.generation ≡ base.generation + 1
      → (w : W) → IsBase services body_at w base
      → HasParent services.json body_at doc w
  next-HasParent base doc next w c g e =
      let same : base.generation ≡ g = omega arith in
      subst (Present services.json body_at w) same (c.in_range, c.body, c.stored)

  mark-Post :
      (base : RootDoc) (work : Bytes) (attempt : ℕ) (new_uuid : Uuid) (transport : Transport)
      (size : ℕ) (w : W)
      → IsDense services.json body_at w
      → IsBase services body_at w base
      → base.generation + 1 ≤ max_generation
      → Drawn new_uuid
      → AdvancePost attempt w
          (mark services ctx max_attempts base work attempt new_uuid transport size w)
  unfolding mark
  mark-Post base work attempt new_uuid transport size w d c fits drawn =
      after-KeepsWith services.json body_at {R = Advanced attempt} w services.now _ d host.now_law
        λ created_at u l.
          after-KeepsWith services.json body_at {R = Advanced attempt} u services.writer_info _
            l.dense host.writer_law
            λ writer v l'.
              let doc : RootDoc = record {
                generation = base.generation + 1;
                payload_uuid = new_uuid;
                created_at = created_at;
                writer = writer;
                pins = base.pins;
                transport = transport;
                payload_size = size;
              } in
              bind-KeepsWith services.json body_at {P = Reported services.json body_at doc attempt}
                {R = Advanced attempt} v
                (try_create_marker services doc new_uuid attempt max_attempts) _
                (Post-weaken
                  (try_create_marker_reports services body_at laws host.backoff_law faithful doc
                    attempt max_attempts v fits l'.dense
                    (next-HasParent base doc refl v (
                      Committed-Later services.json body_at (Later-trans services.json body_at l l')
                        c)))
                  (λ o z h. h) λ e z h. (h.0, λ same. absurd (cc (same, h.1))))
                λ o z l'' h. after_marker-Post work attempt doc o z l''.dense drawn h

  after_publish-Post :
      (base : RootDoc) (work : Bytes) (attempt : ℕ) (new_uuid : Uuid) (o : PublishOutcome) (w : W)
      → IsDense services.json body_at w
      → IsBase services body_at w base
      → HasTime services body_at laws attempt max_attempts o
        × (base.generation + 1 ≤ max_generation)
      → Drawn new_uuid
      → AdvancePost attempt w
          (after_publish services ctx max_attempts base work attempt new_uuid o w)
  after_publish-Post base work attempt new_uuid not_landed w d c h drawn =
      after-KeepsWith services.json body_at {R = Advanced attempt} w
        (services.backoff (attempt + 1)) _ d
        (λ u d'. Post-weaken (host.backoff_law (attempt + 1) u d') (λ _ v l. l) λ e v x. absurd x)
        λ _ v l. returned (
          Later-refl services.json body_at l.dense,
          (refl, h.0 refl, Committed-Later services.json body_at l c),
        )
  after_publish-Post base work attempt new_uuid (published_whole size) w d c h drawn =
      mark-Post base work attempt new_uuid whole size w d c h.1 drawn
  after_publish-Post base work attempt new_uuid (published_chunked size) w d c h drawn =
      mark-Post base work attempt new_uuid chunked size w d c h.1 drawn

  advance-Post :
      (base : RootDoc) (work : Bytes) (attempt : ℕ) (w : W)
      → IsDense services.json body_at w
      → IsBase services body_at w base
      → AdvancePost attempt w (advance services ctx max_attempts base work attempt w)
  unfolding advance
  advance-Post base work attempt w d c =
      bind-KeepsWith services.json body_at {P = λ u _. Drawn u} {R = Advanced attempt} w
        services.uuid4 _ (host.uuid4_law w d)
        λ new_uuid u l drawn.
          after-KeepsWith services.json body_at {R = Advanced attempt} u (ctx.validate work base) _
            l.dense (hooks.validate_law work base)
            λ _ v l'.
              after-KeepsWith services.json body_at {R = Advanced attempt} v
                (ctx.transport_policy base) _ l'.dense (hooks.policy_law base)
                λ policy x l''.
                  bind-KeepsWith services.json body_at
                    {P = λ o _.
                      HasTime services body_at laws attempt max_attempts o
                      × (base.generation + 1 ≤ max_generation)}
                    {R = Advanced attempt} x
                    (publish_resolved services work (base.generation + 1) new_uuid attempt
                      max_attempts policy)
                    _
                    (publish_resolved-Keeps services body_at laws attempt max_attempts work
                      (base.generation + 1) new_uuid policy x l''.dense)
                    λ o y m h.
                      after_publish-Post base work attempt new_uuid o y m.dense
                        (Committed-Later services.json body_at
                          (Later-trans services.json body_at l (
                            Later-trans services.json body_at l'
                              (Later-trans services.json body_at l'' m)))
                          c)
                        h drawn

  -- The commit, or the phase that goes on.
  abbrev EndsPost : W → Result CommitResult × W → Type 0
  EndsPost w =
      Post
        (λ r w'.
          Later services.json body_at w w' × IsCommit services body_at Drawn max_attempts r w')
        (Fallen services.json body_at w)

  -- What follows an attempt, given that the phases left settle the next one.
  next_phase :
      (n attempt : ℕ)
      → ((base : RootDoc) (work : Bytes) (v : W)
          → IsDense services.json body_at v
          → IsBase services body_at v base
          → attempt + 1 < max_attempts
          → EndsPost v
              (run_phases services ctx max_attempts n (attempting base work (attempt + 1)) v))
      → (phase : CommitPhase) (v : W) → IsDense services.json body_at v
      → Advanced attempt phase v
      → attempt < max 1 max_attempts
      → EndsPost v (run_phases services ctx max_attempts n phase v)
  unfolding run_phases
  next_phase n attempt again (attempting base work next) v d h early =
      rw h.0 (again base work v d h.2 (rw h.0 at h.1))
  next_phase n attempt again (committed r) v d h early =
      returned (Later-refl services.json body_at d, (h.0, omega arith))
  next_phase n attempt again (aborted reason) v d h early =
      raised (Later-refl services.json body_at d, λ e. cc e)

  run_phases-Post :
      (n : ℕ) (base : RootDoc) (work : Bytes) (attempt : ℕ) (w : W)
      → 0 < n
      → max_attempts < attempt + n
      → attempt < max 1 max_attempts
      → IsDense services.json body_at w
      → IsBase services body_at w base
      → EndsPost w (run_phases services ctx max_attempts n (attempting base work attempt) w)
  unfolding run_phases
  run_phases-Post zero base work attempt w some_left fuel early d c = absurd (omega arith)
  run_phases-Post (suc n) base work attempt w some_left fuel early d c =
      bind-KeepsWith services.json body_at {P = Advanced attempt}
        {R = IsCommit services body_at Drawn max_attempts} w
        (advance services ctx max_attempts base work attempt) _
        (advance-Post base work attempt w d c)
        (λ phase v l h.
          next_phase n attempt
            (λ base' work' v d' c' more.
              run_phases-Post n base' work' (attempt + 1) v (omega arith) (omega arith)
                (omega arith) d' c')
            phase v l.dense h early)

  -- If the store keeps the laws of `KeepsMarkers`, the host's calls and the hooks keep the
  -- markers, JSON reads back what it wrote, the hooks decide to replay only below
  -- `max_attempts` and then return a base that is in the lake, the lake is dense and the base is in it,
  -- then `run_commit` ends. It returns a result only if the marker of the result's generation is in
  -- the lake with the result's UUID, one that this call itself has drawn (any predicate holds of it
  -- that holds of all that its `uuid4` returns), after at most `max_attempts` attempts (one, if
  -- that is 0); otherwise it raises an error of the program. No marker is lost meanwhile.
  pub run_commit_commits :
      (base : RootDoc) (work : Bytes) (w : W)
      → IsDense services.json body_at w
      → IsBase services body_at w base
      → Post
          (λ r w'.
            Later services.json body_at w w' × IsCommit services body_at Drawn max_attempts r w')
          (λ e w'. Later services.json body_at w w' × (e ≢ out_of_fuel))
          (run_commit services ctx max_attempts base work w)
  unfolding run_commit
  run_commit_commits base work w d c =
      run_phases-Post (suc max_attempts) base work 0 w (omega arith) (omega arith) (omega arith) d c
