-- ===== src/Blob/Commits.antt =====
-- What a blob hands to the commit driver, and so what `write` does.
use ducklake_serverless.Base.{ℕ, ◌≢◌, Text, Bytes, Option}
use ducklake_serverless.Errors.{out_of_fuel, Post}
use ducklake_serverless.Models.Keys.{Uuid}
use ducklake_serverless.Models.RootDoc.{IsFaithful}
use ducklake_serverless.Store.Markers.{Present, IsDense, Later, KeepsMarkers}
use ducklake_serverless.Store.Keeps.{pure-Keeps, bind-KeepsWith}
use ducklake_serverless.Root.{resolve_head}
use ducklake_serverless.Root.Keeps.{resolve_head-Keeps}
use ducklake_serverless.Commit.Services.{Services}
use ducklake_serverless.Commit.Policy.Keeps.{transport_policy-Keeps}
use ducklake_serverless.Commit.Hooks.{HostKeeps, HooksKeep, IsBase, IsCommit}
use ducklake_serverless.Commit.Run.{run_commit_commits}
use ducklake_serverless.Blob.{blob_commit, write}

module _ {W : Type 0} (services : Services W) (body_at : W → Text → Option Bytes) {Fails : Type 0}
    (laws : KeepsMarkers services.json body_at services.store Fails) {Drawn : Uuid → Type 0}
    (host : HostKeeps services body_at Drawn) (faithful : IsFaithful services.json)
    (max_attempts : ℕ) (chunk_threshold : Option ℕ) where
  -- A blob never replays.
  blob_commit-HooksKeep :
      HooksKeep services body_at (blob_commit services max_attempts chunk_threshold) max_attempts
  blob_commit-HooksKeep = record {
    validate_law = λ work base. pure-Keeps services.json body_at tt;
    policy_law = transport_policy-Keeps services body_at laws chunk_threshold;
    decide_law = λ attempt e. absurd (cc e);
    replay_law = λ attempt e. absurd (cc e);
  }

  -- If the store keeps the laws of `KeepsMarkers`, the host's calls keep the markers, JSON reads
  -- back what it wrote, the lake is dense and has a first generation, then `BlobStore.write`
  -- ends. It returns a result only if the marker of the result's generation is in the lake with
  -- the result's UUID, one that this write itself has drawn (any predicate holds of it that holds
  -- of all that its `uuid4` returns), after at most `max_attempts` attempts (one, if that is 0);
  -- otherwise it raises an error of the program. No marker is lost meanwhile.
  pub write_commits :
      (bytes : Bytes) (w : W)
      → IsDense services.json body_at w
      → Present services.json body_at w 0
      → Post
          (λ r w'.
            Later services.json body_at w w' × IsCommit services body_at Drawn max_attempts r w')
          (λ e w'. Later services.json body_at w w' × (e ≢ out_of_fuel))
          (write services max_attempts chunk_threshold bytes w)
  unfolding write
  write_commits bytes w d first =
      bind-KeepsWith services.json body_at {P = λ r u. IsBase services body_at u r.0}
        {R = IsCommit services body_at Drawn max_attempts} w
        (resolve_head services.store services.json) _
        (resolve_head-Keeps services.json body_at services.store laws w d first)
        λ r v l c.
          run_commit_commits services body_at laws host faithful
            (blob_commit services max_attempts chunk_threshold) max_attempts blob_commit-HooksKeep
            r.0 bytes v l.dense c
