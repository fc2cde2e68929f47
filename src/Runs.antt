-- ===== src/Runs.antt =====
-- Runs of the code on concrete values.
pub mod Toy
pub mod Chains
pub mod Stores
pub mod Formats
pub mod Services
pub mod Keys
pub mod Verification
pub mod Filtering
pub mod Queries
pub mod Gateway
pub mod Restarted
pub mod Retried
pub mod Audited
pub mod Verifiers
pub mod Demo
pub mod Anchoring
pub mod Crashing
pub mod Bucket
pub mod Records
pub mod Calendars
