-- ===== src/Commit/Driver.antt =====
-- commit.py, `create_marker_resolving`, `_try_create_marker`, `_advance` and `run_commit`.
use ducklake_serverless.Base.{
  ℕ, zero, suc, ◌+◌, Text, Bytes, Option, none, some, leb, if◌then◌else◌,
}
use ducklake_serverless.Errors.{
  Result, ok, err, external_service, precondition_failed, conditional_conflict, ambiguous_cas,
  conflict_abort, assertion, out_of_fuel, Exec, pure, raise, handle, ◌>>=◌, ◌>>◌,
}
use ducklake_serverless.Models.Keys.{Uuid}
use ducklake_serverless.Models.RootDoc.{RootDoc, Transport, whole, chunked}
use ducklake_serverless.Models.Changeset.{RebaseDecision, replay, abort, Reason}
use ducklake_serverless.Root.{
  MarkerOutcome, won, lost, absent, create_marker, resolve_marker, write_hint,
}
use ducklake_serverless.Commit.Services.{Services, CommitContext}
use ducklake_serverless.Commit.Publish.{
  PublishOutcome, published_whole, published_chunked, not_landed, publish_resolved,
}

pub record CommitResult : Type 0 where
  pub generation : ℕ
  pub payload_uuid : Uuid
  pub attempts : ℕ

pub data CommitPhase : Type 0 where
  attempting : RootDoc → Bytes → ℕ → CommitPhase
  committed : CommitResult → CommitPhase
  aborted : Reason → CommitPhase

module _ {W : Type 0} (services : Services W) where
  -- The exceptions that a GET of the marker resolves; the others are raised.
  abbrev pub settle_marker : Exec W MarkerOutcome → Result Text → Exec W MarkerOutcome
  settle_marker resolve (ok _) = pure won
  settle_marker resolve (err precondition_failed) = resolve
  settle_marker resolve (err conditional_conflict) = resolve
  settle_marker resolve (err ambiguous_cas) = resolve
  settle_marker resolve (err e) = raise e

  abbrev pub unless_absent : Exec W MarkerOutcome → MarkerOutcome → Exec W MarkerOutcome
  unless_absent again won = pure won
  unless_absent again lost = pure lost
  unless_absent again absent = again

  -- The loop, on fuel: each round that goes on has counted an attempt.
  unfoldable pub create_rounds : ℕ → RootDoc → Uuid → ℕ → ℕ → ℕ → Exec W MarkerOutcome
  create_rounds zero doc doc_uuid base_attempt max_attempts local_attempt w = (err out_of_fuel, w)
  create_rounds (suc n) doc doc_uuid base_attempt max_attempts local_attempt w =
      let again = λ (w' : W).
        (if leb max_attempts (base_attempt + (local_attempt + 1))
          then (err external_service, w')
          else (services.backoff (base_attempt + (local_attempt + 1)) >> λ u.
                create_rounds n doc doc_uuid base_attempt max_attempts (local_attempt + 1) u)
              w') in
      (handle (create_marker services.store services.json doc)
            (settle_marker (resolve_marker services.store services.json doc.generation doc_uuid))
          >>= unless_absent again)
        w

  unfoldable pub create_marker_resolving : RootDoc → Uuid → ℕ → ℕ → Exec W MarkerOutcome
  unfolding create_rounds
  create_marker_resolving doc doc_uuid base_attempt max_attempts =
      create_rounds (suc max_attempts) doc doc_uuid base_attempt max_attempts 0

  abbrev pub after_outcome : RootDoc → Uuid → ℕ → MarkerOutcome → Exec W (Option CommitResult)
  after_outcome new_doc new_uuid attempt won =
      write_hint services.store services.json new_doc.generation
      >> pure (
          some (record {
            generation = new_doc.generation;
            payload_uuid = new_uuid;
            attempts = attempt + 1;
          }))
  after_outcome new_doc new_uuid attempt lost = pure none
  after_outcome new_doc new_uuid attempt absent = raise assertion

  unfoldable pub try_create_marker : RootDoc → Uuid → ℕ → ℕ → Exec W (Option CommitResult)
  try_create_marker new_doc new_uuid attempt max_attempts =
      create_marker_resolving new_doc new_uuid attempt max_attempts
      >>= after_outcome new_doc new_uuid attempt

  module _ (ctx : CommitContext W) (max_attempts : ℕ) where
    -- After a lost race.
    abbrev pub after_decision : Bytes → ℕ → RebaseDecision → Exec W CommitPhase
    after_decision work attempt (abort reason) = pure (aborted reason)
    after_decision work attempt replay = do
      services.backoff attempt
      (base, fresh_work) ← ctx.replay work
      pure (attempting base fresh_work attempt)

    abbrev pub after_marker : Bytes → ℕ → Option CommitResult → Exec W CommitPhase
    after_marker work attempt (some result) = pure (committed result)
    after_marker work attempt none =
        after_decision work (attempt + 1) (ctx.decide_rebase (attempt + 1) max_attempts)

    -- The marker of a published payload, whose transport and size are those of the publish.
    unfoldable pub mark : RootDoc → Bytes → ℕ → Uuid → Transport → ℕ → Exec W CommitPhase
    mark base work attempt new_uuid transport payload_size = do
      created_at ← services.now
      writer ← services.writer_info
      result ←
          try_create_marker
            (record {
              generation = base.generation + 1;
              payload_uuid = new_uuid;
              created_at = created_at;
              writer = writer;
              pins = base.pins;
              transport = transport;
              payload_size = payload_size;
            })
            new_uuid attempt max_attempts
      after_marker work attempt result

    abbrev pub after_publish : RootDoc → Bytes → ℕ → Uuid → PublishOutcome → Exec W CommitPhase
    after_publish base work attempt new_uuid not_landed =
        services.backoff (attempt + 1) >> pure (attempting base work (attempt + 1))
    after_publish base work attempt new_uuid (published_whole size) =
        mark base work attempt new_uuid whole size
    after_publish base work attempt new_uuid (published_chunked size) =
        mark base work attempt new_uuid chunked size

    unfoldable pub advance : RootDoc → Bytes → ℕ → Exec W CommitPhase
    advance base work attempt = do
      new_uuid ← services.uuid4
      ctx.validate work base
      policy ← ctx.transport_policy base
      outcome ←
          publish_resolved services work (base.generation + 1) new_uuid attempt max_attempts policy
      after_publish base work attempt new_uuid outcome

    -- `while True`, on fuel.
    unfoldable pub run_phases : ℕ → CommitPhase → Exec W CommitResult
    run_phases n (committed result) w = (ok result, w)
    run_phases n (aborted reason) w = (err conflict_abort, w)
    run_phases zero (attempting base work attempt) w = (err out_of_fuel, w)
    run_phases (suc n) (attempting base work attempt) w =
        (advance base work attempt >>= λ phase u. run_phases n phase u) w

    -- Every attempt that goes on has counted one, so `max_attempts + 1` phases are enough.
    unfoldable pub run_commit : RootDoc → Bytes → Exec W CommitResult
    unfolding run_phases
    run_commit base work = run_phases (suc max_attempts) (attempting base work 0)
