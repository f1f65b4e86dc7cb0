-- ===== src/Gateway.antt =====
-- The session repository and the attempts' repository over one database: their calls in any order,
-- with any clock values, and what holds after any of them.
pub mod Calls
pub mod Slots
pub mod Safety
pub mod Tests
