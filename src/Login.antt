-- ===== src/Login.antt =====
-- login: the pages, and the only way from a browser to Kratos (login/src).
pub mod Config
pub mod Throttle
pub mod Paths
pub mod Fields
pub mod Proxy
pub mod Challenges
