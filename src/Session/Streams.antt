-- ===== src/Session/Streams.antt =====
-- session.py, `reader`, `_stream_store` and `_open_streaming_reader`: whether a reader downloads
-- the catalog or attaches it over httpfs.
use ducklake_serverless.Base.{ℕ, zero, suc, Text, Option, none, some, leb, ◌*◌, if◌then◌else◌}
use ducklake_serverless.Errors.{
  Result, ok, err, external_service, Exec, pure, raise, lift, handle, ensuring, ◌>>=◌,
}
use ducklake_serverless.Models.RootDoc.{RootDoc, Transport, whole, chunked, payload_key}
use ducklake_serverless.Root.{resolve_head}
use ducklake_serverless.Session.{Lake, check_versions, fetch_current_base}

abbrev pub stream_min_bytes : ℕ
stream_min_bytes = 32 * 1024 * 1024

-- `False`, `True` and `"auto"`.
pub data Stream : Type 0 where
  never always auto : Stream

module _ {W Connection : Type 0} (lake : Lake W Connection) where
  -- What is not streamed is downloaded, unless streaming was asked for.
  abbrev pub refuse : Stream → Exec W (Option (Text → Text))
  refuse always = raise external_service
  refuse _ = pure none

  -- The head is there to be streamed, or it is chunked.
  abbrev pub stream_head :
      Stream → (Text → Text) → RootDoc → Transport → Exec W (Option (Text → Text))
  stream_head stream uri base chunked = refuse stream
  stream_head always uri base whole = pure (some uri)
  stream_head stream uri base whole =
      if leb stream_min_bytes base.payload_size then pure (some uri) else pure none

  abbrev pub stream_from : Stream → Option (Text → Text) → Exec W (Option (Text → Text))
  stream_from stream none = refuse stream
  stream_from stream (some uri) =
      if lake.has_credentials
      then (do
        (base, _) ← resolve_head lake.services.store lake.services.json
        stream_head stream uri base base.transport)
      else refuse stream

  unfoldable pub stream_store : Stream → Exec W (Option (Text → Text))
  stream_store never = pure none
  stream_store stream = stream_from stream lake.s3_uri

  abbrev pub retry_attach : Exec W Connection → Result Connection → Exec W Connection
  retry_attach again (ok connection) = pure connection
  retry_attach again (err external_service) = again
  retry_attach again (err e) = raise e

  abbrev pub attach_whole :
      Exec W Connection → (Text → Text) → RootDoc → Transport → Exec W Connection
  attach_whole again uri base chunked = raise external_service
  attach_whole again uri base whole = do
    key ← lift (payload_key base)
    handle (lake.engine.connect_uri (uri key)) (retry_attach again)

  -- `for _ in range(self._max_attempts)`
  unfoldable pub attach_rounds : ℕ → (Text → Text) → Exec W Connection
  attach_rounds zero uri w = (err external_service, w)
  attach_rounds (suc n) uri w =
      (do
        (base, _) ← resolve_head lake.services.store lake.services.json
        _ ← check_versions lake base
        attach_whole (λ u. attach_rounds n uri u) uri base base.transport)
        w

  unfoldable pub open_streaming_reader : (Text → Text) → Exec W Connection
  unfolding attach_rounds
  open_streaming_reader = attach_rounds lake.max_attempts

  -- The connection of a reader, by the one way or the other.
  abbrev pub open_reader : Option (Text → Text) → Exec W Connection
  open_reader (some uri) = open_streaming_reader uri
  open_reader none = do (_, path) ← fetch_current_base lake; lake.engine.connect_read_only path

  unfoldable pub reader : {A : Type 0} → Stream → (Connection → Exec W A) → Exec W A
  unfolding stream_store open_streaming_reader
  reader stream block = do
    stream_uri ← stream_store stream
    connection ← open_reader stream_uri
    ensuring (block connection) (lake.engine.abandon connection)
