-- ===== src/MethodCache.antt =====
-- packages/pagecapture/src/pagecapture/cache.py and backend/proxy/capture/cache.py: remembering for
-- which pages the plain response is enough.
pub mod Entry
pub mod Store
pub mod Policy
pub mod History
pub mod Evidence
pub mod Stickiness
pub mod Storage
pub mod Retention
mod Tests
