-- ===== src/Reconciler.antt =====
-- backend/fleet/reconciler.py: a pass that brings the instances of a fleet to the desired number.
pub mod State
pub mod Requests
pub mod Scaling
pub mod Health
pub mod Pass
pub mod Caution
pub mod Commands
pub mod Report
mod Tests
