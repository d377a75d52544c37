-- ===== src/Http.antt =====
-- internal/httpx: what stands in front of the handlers.
pub mod Origin
pub mod ClientIp
pub mod Respond
