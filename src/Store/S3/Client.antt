-- ===== src/Store/S3/Client.antt =====
-- boto3's client as a parameter, and what `S3ObjectStore` reads of its answers.
use ducklake_serverless.Base.{
  ℕ, Text, Bytes, text, text_eq, strip_prefix, Option, none, some, List, [], ◌∷◌, ◌++◌, Bool, ◌||◌,
  leb, ◌==◌, if◌then◌else◌,
}
use ducklake_serverless.Errors.{
  Error, external_service, object_not_found, precondition_failed, conditional_conflict,
  ambiguous_cas,
}
use ducklake_serverless.Store.{ObjectMeta}

pub data Outcome (A : Type 0) : Type 0 where
  responded : A → Outcome A
  -- The code and the HTTP status of the response.
  client_error : Text → ℕ → Outcome A
  transport_error : Outcome A

-- `resp["Body"].read()` may fail too; then `body` is none.
pub record GetResponse : Type 0 where
  pub body : Option Bytes
  pub etag : Text
  pub last_modified : Option ℕ

pub record HeadResponse : Type 0 where
  pub content_length : ℕ
  pub etag : Text
  pub last_modified : Option ℕ

-- One of `Contents`.
pub record ListedObject : Type 0 where
  pub key : Option Text
  pub size : Option ℕ
  pub last_modified : Option ℕ

pub data Condition : Type 0 where
  unconditional if_none_match : Condition
  if_match : Text → Condition

-- The calls take the bucket and the full key. A range is its first and its last byte, and a
-- listing is its pages.
pub record S3Client (W : Type 0) : Type 0 where
  pub get_object : Text → Text → Option (ℕ × ℕ) → W → Outcome GetResponse × W
  pub put_object : Text → Text → Bytes → Condition → W → Outcome Text × W
  pub list_objects : Text → Text → W → Outcome (List (List ListedObject)) × W
  pub delete_object : Text → Text → W → Outcome (Unit {0}) × W
  pub head_object : Text → Text → W → Outcome HeadResponse × W

-- `s.strip(c)`, from the left and from both sides.
unfoldable pub lstrip : ℕ → Text → Text
lstrip c [] = []
lstrip c (d ∷ s) = let rest = lstrip c s in if d == c then rest else d ∷ s

unfoldable pub rstrip : ℕ → Text → Text
rstrip c [] = []
rstrip c (d ∷ s) = kept (rstrip c s)
  where
    kept : Text → Text
    kept [] = if d == c then [] else d ∷ []
    kept (x ∷ rest) = d ∷ x ∷ rest

-- `etag.strip('"')`
unfoldable pub strip_quotes : Text → Text
strip_quotes etag = rstrip 34 (lstrip 34 etag)

-- `prefix.rstrip("/") + "/" if prefix else ""`
unfoldable pub store_prefix : Text → Text
store_prefix [] = []
store_prefix (c ∷ prefix) = rstrip 47 (c ∷ prefix) ++ text "/"

-- `key.removeprefix(prefix)`
unfoldable pub remove_prefix : Text → Text → Text
remove_prefix prefix key = elim (strip_prefix prefix key) [ none ↦ key | some rest ↦ rest ]

-- `code in ("NoSuchKey", "404")`
unfoldable pub is_no_such_key : Text → Bool
is_no_such_key code = text_eq code (text "NoSuchKey") || text_eq code (text "404")

unfoldable pub is_precondition_failed : Text → ℕ → Bool
is_precondition_failed code status = text_eq code (text "PreconditionFailed") || status == 412

unfoldable pub is_missing : Text → ℕ → Bool
is_missing code status = is_no_such_key code || status == 404

unfoldable pub is_conflict : Text → ℕ → Bool
is_conflict code status = text_eq code (text "ConditionalRequestConflict") || status == 409

unfoldable pub is_outcome_unknown : Text → ℕ → Bool
is_outcome_unknown code status =
    leb 500 status || (text_eq code (text "RequestTimeout") || text_eq code (text "SlowDown"))

-- `_raise_conditional`, and the ExternalServiceError behind it.
unfoldable pub conditional_error : Text → ℕ → Error
conditional_error code status =
    if is_precondition_failed code status
    then precondition_failed
    else if is_missing code status
    then object_not_found
    else if is_conflict code status
    then conditional_conflict
    else if is_outcome_unknown code status
    then ambiguous_cas
    else external_service

-- What a listed object says; one without a key is left out.
unfoldable pub page_keys : Text → List ListedObject → List Text
page_keys prefix [] = []
page_keys prefix (obj ∷ objs) = elim obj.key [
  | none ↦ page_keys prefix objs
  | some key ↦ remove_prefix prefix key ∷ page_keys prefix objs
]

abbrev pub or_zero : Option ℕ → ℕ
or_zero none = 0
or_zero (some n) = n

unfoldable pub page_metas : Text → List ListedObject → List ObjectMeta
page_metas prefix [] = []
page_metas prefix (obj ∷ objs) = elim obj.key [
  | none ↦ page_metas prefix objs
  | some key ↦
      record {
        key = remove_prefix prefix key;
        size = or_zero obj.size;
        last_modified = obj.last_modified;
      }
      ∷ page_metas prefix objs
]

abbrev pub flatten : List (List ListedObject) → List ListedObject
flatten [] = []
flatten (page ∷ pages) = page ++ flatten pages
