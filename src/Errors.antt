-- ===== src/Errors.antt =====
-- errors.py, and the computations that raise its errors: pure ones, and those that use a world,
-- which is the object store together with all that other clients do to it meanwhile. The texts of
-- the messages are not modelled.
mod Defs
mod Outcome
unfoldable pub use Defs.{is_object_not_found, is_not_found}
pub use Defs.*
pub use Outcome.*
