-- ===== src/Blob.antt =====
-- blob.py: `BlobStore`, one versioned blob. A work file is its bytes, and removing it is nothing.
pub mod Commits
use ducklake_serverless.Base.{ℕ, zero, Option, Bytes, [], Bool, if◌then◌else◌, length, none}
use ducklake_serverless.Errors.{assertion, Exec, pure, raise, lift, ◌>>=◌, ◌>>◌}
use ducklake_serverless.Models.Keys.{Uuid, format_payload_key}
use ducklake_serverless.Models.RootDoc.{RootDoc, Transport, whole, chunked, payload_key}
use ducklake_serverless.Models.Changeset.{abort, blob_lost_race}
use ducklake_serverless.Store.Probe.{require_atomic_create}
use ducklake_serverless.Root.{
  MarkerOutcome, won, lost, absent, read_marker, resolve_head, write_hint,
}
use ducklake_serverless.Chunk.Transfer.{load_manifest}
use ducklake_serverless.Chunk.Reconstruct.{reconstruct}
use ducklake_serverless.Commit.Services.{Services, CommitContext}
use ducklake_serverless.Commit.Policy.{transport_policy}
use ducklake_serverless.Commit.Driver.{CommitResult, create_marker_resolving, run_commit}

module _ {W : Type 0} (services : Services W) (max_attempts : ℕ) (chunk_threshold : Option ℕ) where
  -- `_BlobCommit`
  abbrev pub blob_commit : CommitContext W
  blob_commit = record {
    validate = λ work base. pure tt;
    decide_rebase = λ attempt top. abort blob_lost_race;
    replay = λ stale_work. raise assertion;
    transport_policy = transport_policy services chunk_threshold;
  }

  abbrev pub after_first : RootDoc → MarkerOutcome → Exec W RootDoc
  after_first doc won = write_hint services.store services.json 0 >> pure doc
  after_first doc lost = read_marker services.store services.json 0
  after_first doc absent = raise assertion

  -- Generation 0 has no pins, and is whole.
  unfoldable pub bootstrap : Bytes → Bool → Exec W RootDoc
  bootstrap initial verify_backend = do
    _ ← if verify_backend then require_atomic_create services.store services.uuid4 else pure tt
    blob_uuid ← services.uuid4
    key ← lift (format_payload_key 0 blob_uuid)
    _ ← services.store.put_if_absent key initial
    created_at ← services.now
    writer ← services.writer_info
    let doc : RootDoc = record {
      generation = 0;
      payload_uuid = blob_uuid;
      created_at = created_at;
      writer = writer;
      pins = [];
      transport = whole;
      payload_size = length initial;
    }
    outcome ← create_marker_resolving services doc blob_uuid 0 max_attempts
    after_first doc outcome

  unfoldable pub head : Exec W RootDoc
  head = do (base, _) ← resolve_head services.store services.json; pure base

  -- `match base.transport`
  abbrev pub read_payload : RootDoc → Transport → Exec W Bytes
  read_payload base whole = do
    key ← lift (payload_key base)
    result ← services.store.get key
    pure result.body
  read_payload base chunked = do
    key ← lift (payload_key base)
    manifest ← load_manifest services.store services.manifest_json key
    reconstruct services.store services.sha256 manifest

  unfoldable pub read : Exec W Bytes
  read = do (base, _) ← resolve_head services.store services.json; read_payload base base.transport

  unfoldable pub write : Bytes → Exec W CommitResult
  write bytes = do
    (base, _) ← resolve_head services.store services.json
    run_commit services blob_commit max_attempts base bytes
