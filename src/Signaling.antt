-- ===== src/Signaling.antt =====
-- The room relay: internal/signaling.
pub mod Protocol
pub mod RateLimit
pub mod Hub
pub mod Server
pub mod Client
