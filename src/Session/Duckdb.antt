-- ===== src/Session/Duckdb.antt =====
-- engine.py: the facade over duckdb, which is a parameter here. Each call of it ends with a result, or
-- with a `duckdb.Error`, which is `none`.
use ducklake_serverless.Base.{
  Text, text, Option, none, some, List, [], ◌∷◌, ◌++◌, Bool, if◌then◌else◌,
}
use ducklake_serverless.Errors.{
  Result, ok, err, external_service, index_error, Exec, pure, raise, handle, ensuring, ◌>>=◌, ◌>>◌,
}
use ducklake_serverless.Session.{Rows}

pub record Duckdb (W Handle : Type 0) : Type 0 where
  pub connect : Exec W Handle
  pub connect_read_only : Text → W → Option Handle × W
  pub execute : Handle → Text → List Text → W → Option Rows × W
  pub close : Handle → Exec W (Unit {0})

-- The optional endpoint is host and port.
pub record S3Credentials : Type 0 where
  pub access_key_id : Text
  pub secret_access_key : Text
  pub endpoint : Option Text
  pub region : Text
  pub use_ssl : Bool
  pub url_style : Text

-- `", ".join(parts)`
unfoldable pub comma_joined : List Text → Text
comma_joined [] = []
comma_joined (part ∷ []) = part
comma_joined (part ∷ next ∷ parts) = part ++ (text ", " ++ comma_joined (next ∷ parts))

abbrev pub quoted : Text → Text
quoted s = text "'" ++ (s ++ text "'")

abbrev pub endpoint_clause : Option Text → List Text
endpoint_clause none = []
endpoint_clause (some endpoint) = text "ENDPOINT ?" ∷ []

abbrev pub endpoint_param : Option Text → List Text
endpoint_param none = []
endpoint_param (some endpoint) = endpoint ∷ []

unfoldable pub secret_clauses : S3Credentials → List Text
secret_clauses creds =
    text "TYPE s3"
    ∷ text "KEY_ID ?"
    ∷ text "SECRET ?"
    ∷ text "REGION ?"
    ∷ (text "URL_STYLE " ++ quoted creds.url_style)
    ∷ (text "USE_SSL " ++ (if creds.use_ssl then text "true" else text "false"))
    ∷ endpoint_clause creds.endpoint

-- Only a placeholder stands for what is secret.
unfoldable pub secret_params : S3Credentials → List Text
secret_params creds =
    creds.access_key_id ∷ creds.secret_access_key ∷ creds.region ∷ endpoint_param creds.endpoint

abbrev pub data_path_option : Option Text → List Text
data_path_option none = []
data_path_option (some data_path) = (text "DATA_PATH " ++ quoted data_path) ∷ []

-- `options`, and `opts` of them.
unfoldable pub attach_options : Bool → Option Text → List Text
attach_options read_only data_path =
    (if read_only then text "READ_ONLY" ∷ [] else []) ++ data_path_option data_path

unfoldable pub options_text : List Text → Text
options_text [] = []
options_text (option ∷ options) = text " (" ++ (comma_joined (option ∷ options) ++ text ")")

-- `ATTACH 'ducklake:<path>' AS lake<opts>`
unfoldable pub attach_sql : Text → Bool → Option Text → Text
attach_sql catalog_path read_only data_path =
    text "ATTACH "
    ++ (quoted (text "ducklake:" ++ catalog_path)
        ++ (text " AS lake" ++ options_text (attach_options read_only data_path)))

module _ {W Handle : Type 0} (duckdb : Duckdb W Handle) where
  -- `except duckdb.Error as exc: raise ExternalServiceError`
  abbrev pub or_external : {A : Type 0} → Option A × W → Result A × W
  or_external (some a, w) = (ok a, w)
  or_external (none, w) = (err external_service, w)

  -- `LakeConnection.execute`, and each statement of its construction.
  unfoldable pub execute : Handle → Text → List Text → Exec W Rows
  execute con statement params w = or_external (duckdb.execute con statement params w)

  unfoldable pub create_s3_secret : Handle → S3Credentials → Exec W (Unit {0})
  create_s3_secret con creds = do
    _ ← execute con (text "INSTALL httpfs; LOAD httpfs;") []
    _ ←
        execute con
          (text "CREATE SECRET lake_s3 (" ++ (comma_joined (secret_clauses creds) ++ text ")"))
          (secret_params creds)
    pure tt

  abbrev pub secret_if : Handle → Option S3Credentials → Exec W (Unit {0})
  secret_if con none = pure tt
  secret_if con (some creds) = create_s3_secret con creds

  -- A failed construction closes the handle.
  abbrev pub opened : Handle → Result Rows → Exec W Handle
  opened con (ok _) = pure con
  opened con (err e) = duckdb.close con >> raise e

  -- `LakeConnection.__init__`
  unfoldable pub lake_connection : Text → Option Text → Bool → Option S3Credentials → Exec W Handle
  lake_connection catalog_path data_path read_only s3_credentials = do
    con ← duckdb.connect
    handle
        (do
          _ ← execute con (text "INSTALL ducklake; LOAD ducklake;") []
          _ ← secret_if con s3_credentials
          _ ← execute con (attach_sql catalog_path read_only data_path) []
          execute con (text "USE lake") [])
        (opened con)

  unfoldable pub close : Handle → Exec W (Unit {0})
  close con =
      ensuring
        (do
          _ ← execute con (text "USE memory") []
          _ ← execute con (text "DETACH lake") []
          pure tt)
        (duckdb.close con)

  unfoldable pub abandon : Handle → Exec W (Unit {0})
  abandon con = duckdb.close con

  -- `fetchone`, and the value in the row.
  abbrev pub version_of : Rows → Exec W Text
  version_of [] = raise external_service
  version_of ([] ∷ rows) = raise index_error
  version_of ((version ∷ _) ∷ rows) = pure version

  unfoldable pub probe_ducklake_format_version : Text → Exec W Text
  probe_ducklake_format_version catalog_path = do
    con ← λ w. or_external (duckdb.connect_read_only catalog_path w)
    rows ←
        ensuring (execute con (text "SELECT value FROM ducklake_metadata WHERE key = 'version'") [])
          (duckdb.close con)
    version_of rows
