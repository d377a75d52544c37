-- ===== src/Auth.antt =====
-- internal/auth: accounts, sessions, and who a request comes from.
pub mod Redis
pub mod Users
pub mod Sessions
pub mod RateLimiter
pub mod Middleware
pub mod Cookies
pub mod Service
pub mod Handlers
pub mod Password
