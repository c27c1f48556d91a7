-- ===== src/Tests.antt =====
-- The properties at concrete inputs, and the stores and encodings that they run on.
mod Json
mod Keys
mod Decisions
mod Lake
mod Commits
mod Current
mod Leases
mod Ledgers
mod Statements
mod Downloads
mod Ranges
mod S3
mod Sessions
mod Sweeps
mod Probes
