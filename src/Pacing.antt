-- ===== src/Pacing.antt =====
-- backend/proxy/domain_pacing: how many captures of a domain may run, and how far apart they start.
pub mod Contracts
pub mod Controller
pub mod Evidence
pub mod Attribution
pub mod Bounds
pub mod Generations
pub mod Tables
pub mod Refresh
pub mod Acquire
pub mod Release
pub mod Calls
pub mod Soundness
pub mod Laws
pub mod Grants
pub mod Capacity
pub mod Spacing
pub mod Distance
pub mod Retries
mod Tests
