-- ===== src/Commit.antt =====
-- commit.py: publish a payload, create its marker, and rebase after a lost race.
pub mod Services
pub mod Policy
pub mod Publish
pub mod Driver
pub mod Marker
pub mod Winner
pub mod Hooks
pub mod Run
