-- ===== src/Commit/Hooks.antt =====
-- What `run_commit` asks of the host and of the hooks of a payload kind, and what a commit is.
use ducklake_serverless.Base.{ℕ, ◌≤◌, ◌<◌, ◌≡◌, max, Text, Bytes, Option}
use ducklake_serverless.Errors.{Post}
use ducklake_serverless.Models.Keys.{Uuid}
use ducklake_serverless.Models.RootDoc.{RootDoc}
use ducklake_serverless.Models.Changeset.{replay}
use ducklake_serverless.Store.Markers.{Present, Committed, IsDense, Later}
use ducklake_serverless.Store.Keeps.{Fallen, Keeps}
use ducklake_serverless.Commit.Services.{Services, CommitContext}
use ducklake_serverless.Commit.Driver.{CommitResult}
use ducklake_serverless.Commit.Marker.{WaitKeeps}

module _ {W : Type 0} (services : Services W) (body_at : W → Text → Option Bytes) where
  -- What the host's calls leave alone. `Drawn` is any predicate that holds of every UUID that
  -- `uuid4` returns during the call that is looked at: nothing else tells which UUIDs are drawn by it.
  pub record HostKeeps (Drawn : Uuid → Type 0) : Type 0 where
    pub uuid4_law :
        (w : W)
        → IsDense services.json body_at w
        → Post
            (λ u w'. Later services.json body_at w w' × Drawn u)
            (Fallen services.json body_at w)
            (services.uuid4 w)
    pub now_law : Keeps services.json body_at services.now
    pub writer_law : Keeps services.json body_at services.writer_info
    pub backoff_law : WaitKeeps services.json body_at services.backoff

  -- A base that a commit starts from: a generation that is in the lake.
  abbrev pub IsBase : W → RootDoc → Type 0
  IsBase w base = Committed services.json body_at w base.generation base

  -- What `run_commit` asks of the hooks of a payload kind: they write no markers, a replay
  -- starts over from a generation of the lake, and nothing is replayed once the attempts are used up.
  pub record HooksKeep (ctx : CommitContext W) (max_attempts : ℕ) : Type 0 where
    pub validate_law :
        (work : Bytes) (base : RootDoc) → Keeps services.json body_at (ctx.validate work base)
    pub policy_law : (base : RootDoc) → Keeps services.json body_at (ctx.transport_policy base)
    pub decide_law :
        (attempt : ℕ) → ctx.decide_rebase attempt max_attempts ≡ replay → attempt < max_attempts
    -- Asked only where a replay is decided on.
    pub replay_law :
        (attempt : ℕ)
        → ctx.decide_rebase attempt max_attempts ≡ replay
        → (work : Bytes) (w : W) → IsDense services.json body_at w
        → Present services.json body_at w 0
        → Post
            (λ r w'. Later services.json body_at w w' × IsBase w' r.0)
            (Fallen services.json body_at w)
            (ctx.replay work w)

  -- The marker of the result's generation is in the lake, with the result's UUID, and that UUID
  -- has been drawn.
  abbrev pub IsCommitted : (Uuid → Type 0) → CommitResult → W → Type 0
  IsCommitted Drawn r w =
      (doc : RootDoc) × Committed services.json body_at w r.generation doc
      × (doc.payload_uuid ≡ r.payload_uuid)
      × Drawn r.payload_uuid

  -- The attempts that a commit counts: one at least, whatever the bound.
  abbrev pub IsCommit : (Uuid → Type 0) → ℕ → CommitResult → W → Type 0
  IsCommit Drawn max_attempts r w = IsCommitted Drawn r w × (r.attempts ≤ max 1 max_attempts)
