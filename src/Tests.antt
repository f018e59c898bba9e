-- ===== src/Tests.antt =====
-- The theorems of the development at concrete inputs.
pub mod Chain
pub mod Ledger
pub mod Service
pub mod Requests
pub mod Site
pub mod Traces
pub mod Process
pub mod Interleaved
pub mod Start
