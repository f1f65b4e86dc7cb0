-- ===== src/Fleet.antt =====
-- backend/fleet: the scaling policy of a managed fleet and the repository of its desired state.
pub mod Policy
pub mod Configuration
pub mod Instances
pub mod Limits
pub mod Permits
pub mod Draining
pub mod Keys
pub mod Bounds
mod Tests
