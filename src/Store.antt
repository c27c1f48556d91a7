-- ===== src/Store.antt =====
-- objectstore.py: the `ObjectStore` protocol. A store is a parameter of everything above it; each
-- call takes the world to a later one, in which other clients may have acted too.
pub mod Markers
pub mod Memory
pub mod Keeps
pub mod Probe
pub mod S3
use ducklake_serverless.Base.{ℕ, Text, Bytes, Option, List}
use ducklake_serverless.Errors.{Exec}

-- Times are those of the store's clock, in seconds.
pub record GetResult : Type 0 where
  pub body : Bytes
  pub etag : Text
  pub last_modified : Option ℕ

pub record ObjectMeta : Type 0 where
  pub key : Text
  pub size : ℕ
  pub last_modified : Option ℕ

pub record ObjectStore (W : Type 0) : Type 0 where
  pub get : Text → Exec W GetResult
  pub get_range : Text → ℕ → ℕ → Exec W Bytes
  pub put_if_absent : Text → Bytes → Exec W Text
  pub put_if_match : Text → Bytes → Text → Exec W Text
  pub put : Text → Bytes → Exec W Text
  pub list_prefix : Text → Exec W (List Text)
  pub list_meta : Text → Exec W (List ObjectMeta)
  pub head_meta : Text → Exec W ObjectMeta
  pub delete : Text → Exec W (Unit {0})
