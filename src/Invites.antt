-- ===== src/Invites.antt =====
-- internal/invites: ringing another user through the inbox.
pub mod Patterns
pub mod Handler
pub mod Sending
