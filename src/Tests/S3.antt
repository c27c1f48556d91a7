-- ===== src/Tests/S3.antt =====
-- An S3 client that answers for another store, and the S3 store over it.
use ducklake_serverless.Base.{ℕ, ◌≡◌, refl, Text, Bytes, text, text_eq, none, some, [], ◌∷◌, map}
use ducklake_serverless.Errors.{
  Error, Result, ok, err, external_service, object_not_found, precondition_failed,
  conditional_conflict, ambiguous_cas, Exec,
}
use ducklake_serverless.Store.{GetResult, ObjectMeta, ObjectStore}
use ducklake_serverless.Store.Memory.{InMemoryObjectStore, in_memory}
use ducklake_serverless.Store.S3.Client.{
  Outcome, responded, client_error, GetResponse, HeadResponse, Condition, unconditional,
  if_none_match, if_match, S3Client, store_prefix,
}
use ducklake_serverless.Store.S3.Keeps as S3
use ducklake_serverless.Base.{dict_get}
use ducklake_serverless.Store.S3.Client.{
  rstrip, lstrip, strip_quotes, conditional_error, is_precondition_failed, is_missing,
  is_no_such_key, is_conflict, is_outcome_unknown,
}
use ducklake_serverless.Store.S3.Compat.{
  Results, verdict_of, has_status, winners_of, atomic, sequential_only, ignored, broken,
}
use ducklake_serverless.Tests.Lake.{clock}

-- The code and status of an error.
abbrev answer : Error → Text × ℕ
answer object_not_found = (text "NoSuchKey", 404)
answer precondition_failed = (text "PreconditionFailed", 412)
answer conditional_conflict = (text "ConditionalRequestConflict", 409)
answer ambiguous_cas = (text "ServiceUnavailable", 503)
answer e = (text "AccessDenied", 403)

module _ {W A B : Type 0} (f : A → B) where
  abbrev served : Result A × W → Outcome B × W
  served (ok a, w) = (responded (f a), w)
  served (err e, w) = let (code, status) = answer e in (client_error code status, w)

module _ {W : Type 0} (store : ObjectStore W) where
  abbrev response : GetResult → GetResponse
  response r = record { body = some r.body; etag = r.etag; last_modified = r.last_modified }

  abbrev head_response : ObjectMeta → HeadResponse
  head_response meta = record {
    content_length = meta.size;
    etag = [];
    last_modified = meta.last_modified;
  }

  abbrev put_by : Text → Bytes → Condition → Exec W Text
  put_by key b unconditional = store.put key b
  put_by key b if_none_match = store.put_if_absent key b
  put_by key b (if_match etag) = store.put_if_match key b etag

  abbrev client : S3Client W
  client = record {
    get_object = λ bucket key range w. served response (store.get key w);
    put_object = λ bucket key b condition w. served (λ etag. etag) (put_by key b condition w);
    list_objects = λ bucket prefix w.
        served
          (λ keys.
            map (λ key. record { key = some key; size = none; last_modified = none }) keys ∷ [])
          (store.list_prefix prefix w);
    delete_object = λ bucket key w. served (λ u. u) (store.delete key w);
    head_object = λ bucket key w. served head_response (store.head_meta key w);
  }

abbrev lake_client : S3Client InMemoryObjectStore
lake_client = client (in_memory clock)

abbrev results : ℕ → ℕ → Results
results existing winners =
    (text "create_only_fresh", 200)
    ∷ (text "create_only_existing", existing)
    ∷ (text "if_match_correct", 200)
    ∷ (text "if_match_stale", existing)
    ∷ (text "concurrent_create_winners", winners)
    ∷ []

verdicts :
    (verdict_of (results 412 1) ≡ atomic)
    × (verdict_of (results 412 6) ≡ sequential_only)
    × (verdict_of (results 200 6) ≡ ignored)
    × (verdict_of [] ≡ broken)
unfolding verdict_of has_status winners_of dict_get text_eq
verdicts = (refl, refl, refl, refl)

prefixes :
    (store_prefix (text "lake//") ≡ text "lake/")
    × (store_prefix [] ≡ [])
    × (strip_quotes (34 ∷ 97 ∷ 34 ∷ []) ≡ 97 ∷ [])
unfolding store_prefix strip_quotes rstrip lstrip
prefixes = (refl, refl, refl)

-- Three answers to a conditional write.
answers :
    (conditional_error (text "NoSuchBucket") 404 ≡ object_not_found)
    × (conditional_error (text "SlowDown") 503 ≡ ambiguous_cas)
    × (conditional_error (text "AccessDenied") 403 ≡ external_service)
unfolding conditional_error is_precondition_failed is_missing is_no_such_key is_conflict
    is_outcome_unknown text_eq
answers = (refl, refl, refl)
