-- ===== src/Sessions.antt =====
-- backend/proxy/postgres/sessions.py: PostgresSessionRepository. Each method is one transaction, and
-- its argument `now` is the clock value that the method reads from the database.
pub mod Live
pub mod Events
pub mod Expiry
pub mod Admission
pub mod Lease
pub mod Release
pub mod Calls
pub mod Capacity
pub mod Fencing
pub mod Idempotence
mod Tests
