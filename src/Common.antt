-- ===== src/Common.antt =====
-- What the services share (common/src).
pub mod RateLimit
pub mod Config
