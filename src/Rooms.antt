-- ===== src/Rooms.antt =====
-- internal/rooms: the directory of rooms.
pub mod Service
pub mod Slug
pub mod Handlers
pub mod Store
