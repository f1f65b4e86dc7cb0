-- ===== src/Admission.antt =====
-- backend/proxy/attempts/manager.py: the admission of an attempt, and its lease.
pub mod Retry
pub mod Acquire
pub mod Settlement
mod Tests
