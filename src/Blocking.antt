-- ===== src/Blocking.antt =====
-- backend/proxy/transport/domain_blocking.py: a page is shown to the client only when the provider
-- has confirmed the list of blocked domains for it.
pub mod Json
pub mod Messages
pub mod Session
pub mod Routing
pub mod Configuration
pub mod Calls
pub mod Gating
pub mod Withholding
pub mod Advance
pub mod Shown
pub mod Tracking
pub mod Targets
pub mod Flow
pub mod Order
pub mod Secured
pub mod Ids
mod Tests
