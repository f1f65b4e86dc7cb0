-- ===== src/Attempts.antt =====
-- backend/proxy/postgres/attempts.py: PostgresAttemptRepository. Each method is one transaction, and
-- its argument `now` is the clock value that the method reads from the database.
pub mod Live
pub mod Placement
pub mod Expiry
pub mod Enqueue
pub mod Claim
pub mod Progress
pub mod Occupancy
pub mod Slots
pub mod Methods
pub mod Order
pub mod Endings
