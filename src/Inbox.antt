-- ===== src/Inbox.antt =====
-- The inbox of a user: internal/inbox.
pub mod Hub
pub mod Server
pub mod Connection
