-- ===== src/NetworkPolicy.antt =====
-- backend/proxy/network_policy.py: the domains that no session may reach.
pub mod Repository
pub mod Freshness
mod Tests
