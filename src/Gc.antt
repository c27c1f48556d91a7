-- ===== src/Gc.antt =====
-- gc.py: garbage collection of payloads and packs.
pub mod Decide
pub mod Ledger
pub mod Deletes
pub mod Resolve
pub mod Collect
pub mod Maintain
