-- ===== src/Routing.antt =====
-- The web interface of the daemon (routing/server).
pub mod Socket
pub mod Handlers
pub mod Scopes
pub mod Backed
pub mod Backing
pub mod Steady
pub mod Listened
pub mod Denied
pub mod Routes
pub mod Guarded
