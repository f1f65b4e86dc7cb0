-- ===== src/ExternalCapacity.antt =====
-- backend/proxy/external_capacity.py: the limits of the providers that are not stolosio's own.
pub mod Repository
pub mod Audit
pub mod Credentials
mod Tests
