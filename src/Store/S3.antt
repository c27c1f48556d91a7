-- ===== src/Store/S3.antt =====
-- objectstore.py, `S3ObjectStore` and `verify_conditional_writes`. The client is boto3's, so a
-- parameter: a call of it ends with a response, a ClientError or a BotoCoreError.
pub mod Client
pub mod Answers
pub mod Compat
pub mod Keeps
use ducklake_serverless.Base.{
  ℕ, ◌+◌, ◌-◌, Text, Bytes, text, text_eq, strip_prefix, Option, none, some, List, [], ◌∷◌, ◌++◌,
  Bool, true, false, ◌||◌, leb, ◌==◌, if◌then◌else◌,
}
use ducklake_serverless.Errors.{
  Error, Result, ok, err, external_service, object_not_found, precondition_failed,
  conditional_conflict, ambiguous_cas, botocore_error, Exec, pure, raise, handle, ensuring, ◌>>=◌,
}
use ducklake_serverless.Store.{GetResult, ObjectMeta, ObjectStore}
use ducklake_serverless.Store.S3.Client.{
  Outcome, GetResponse, HeadResponse, ListedObject, Condition, S3Client, lstrip, rstrip,
  strip_quotes, store_prefix, remove_prefix, is_no_such_key, is_precondition_failed, is_missing,
  is_conflict, is_outcome_unknown, conditional_error, page_keys, or_zero, page_metas, flatten,
  responded, client_error, transport_error, unconditional, if_none_match, if_match,
}

module _ {W : Type 0} (client : S3Client W) (bucket prefix : Text) where
  abbrev pub full : Text → Text
  full key = store_prefix prefix ++ key

  abbrev pub body_or_raise : Option Bytes → Exec W Bytes
  body_or_raise none = raise botocore_error
  body_or_raise (some body) = pure body

  abbrev pub got : Outcome GetResponse × W → Result GetResult × W
  got (responded r, w) =
      (do
        body ← body_or_raise r.body
        pure (record { body = body; etag = strip_quotes r.etag; last_modified = r.last_modified }))
        w
  got (client_error code status, w) =
      (if is_no_such_key code then err object_not_found else err external_service, w)
  got (transport_error, w) = (err botocore_error, w)

  unfoldable pub s3_get : Text → Exec W GetResult
  s3_get key w = got (client.get_object bucket (full key) none w)

  abbrev pub got_range : Outcome GetResponse × W → Result Bytes × W
  got_range (responded r, w) = body_or_raise r.body w
  got_range (client_error code status, w) = (
    if is_no_such_key code
        then err object_not_found
        else if text_eq code (text "InvalidRange")
        then ok []
        else err external_service,
    w,
  )
  got_range (transport_error, w) = (err botocore_error, w)

  -- The start is never negative here.
  unfoldable pub s3_get_range : Text → ℕ → ℕ → Exec W Bytes
  s3_get_range key start count = if leb count 0 then pure [] else λ w.
      got_range (client.get_object bucket (full key) (some (start, start + count - 1)) w)

  abbrev pub put_conditionally : Outcome Text × W → Result Text × W
  put_conditionally (responded etag, w) = (ok (strip_quotes etag), w)
  put_conditionally (client_error code status, w) = (err (conditional_error code status), w)
  put_conditionally (transport_error, w) = (err ambiguous_cas, w)

  unfoldable pub s3_put_if_absent : Text → Bytes → Exec W Text
  s3_put_if_absent key body w =
      put_conditionally (client.put_object bucket (full key) body if_none_match w)

  unfoldable pub s3_put_if_match : Text → Bytes → Text → Exec W Text
  s3_put_if_match key body etag w =
      put_conditionally (client.put_object bucket (full key) body (if_match etag) w)

  abbrev pub put_anyway : Outcome Text × W → Result Text × W
  put_anyway (responded etag, w) = (ok (strip_quotes etag), w)
  put_anyway (client_error code status, w) = (err external_service, w)
  put_anyway (transport_error, w) = (err external_service, w)

  unfoldable pub s3_put : Text → Bytes → Exec W Text
  s3_put key body w = put_anyway (client.put_object bucket (full key) body unconditional w)

  -- A call whose ClientError is an ExternalServiceError.
  abbrev pub settled : {A B : Type 0} → (A → B) → Outcome A × W → Result B × W
  settled f (responded a, w) = (ok (f a), w)
  settled f (client_error code status, w) = (err external_service, w)
  settled f (transport_error, w) = (err botocore_error, w)

  unfoldable pub s3_list_prefix : Text → Exec W (List Text)
  s3_list_prefix key_prefix w =
      settled (λ pages. page_keys (store_prefix prefix) (flatten pages))
        (client.list_objects bucket (full key_prefix) w)

  unfoldable pub s3_list_meta : Text → Exec W (List ObjectMeta)
  s3_list_meta key_prefix w =
      settled (λ pages. page_metas (store_prefix prefix) (flatten pages))
        (client.list_objects bucket (full key_prefix) w)

  unfoldable pub s3_delete : Text → Exec W (Unit {0})
  s3_delete key w = settled (λ u. u) (client.delete_object bucket (full key) w)

  abbrev pub headed : Text → Outcome HeadResponse × W → Result ObjectMeta × W
  headed key (responded r, w) =
      (ok (record { key = key; size = r.content_length; last_modified = r.last_modified }), w)
  headed key (client_error code status, w) =
      (if is_missing code status then err object_not_found else err external_service, w)
  headed key (transport_error, w) = (err botocore_error, w)

  unfoldable pub s3_head_meta : Text → Exec W ObjectMeta
  s3_head_meta key w = headed key (client.head_object bucket (full key) w)

  unfoldable pub object_uri : Text → Text
  object_uri key = text "s3://" ++ (bucket ++ (text "/" ++ full key))

  abbrev pub s3_object_store : ObjectStore W
  s3_object_store = record {
    get = s3_get;
    get_range = s3_get_range;
    put_if_absent = s3_put_if_absent;
    put_if_match = s3_put_if_match;
    put = s3_put;
    list_prefix = s3_list_prefix;
    list_meta = s3_list_meta;
    head_meta = s3_head_meta;
    delete = s3_delete;
  }

-- `except PreconditionFailedError: pass`, and `else`.
abbrev pub must_fail : {W : Type 0} → Result Text → Exec W (Unit {0})
must_fail (ok _) = raise external_service
must_fail (err precondition_failed) = pure tt
must_fail (err e) = raise e

unfoldable pub verify_conditional_writes : {W : Type 0} → ObjectStore W → Text → Exec W (Unit {0})
verify_conditional_writes store probe_key = do
  etag ← store.put_if_absent probe_key (text "probe-1")
  ensuring
      (do
        _ ← handle (store.put_if_absent probe_key (text "probe-2")) must_fail
        _ ← store.put_if_match probe_key (text "probe-3") etag
        handle (store.put_if_match probe_key (text "probe-4") etag) must_fail)
      (store.delete probe_key)
