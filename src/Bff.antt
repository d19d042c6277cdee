-- ===== src/Bff.antt =====
-- bff: the service that holds the sessions and proxies the application's calls (bff/src).
pub mod Session
pub mod Storage
pub mod Jti
pub mod RefreshLock
pub mod Hydra
pub mod Secrets
pub mod Server
pub mod Proxy
pub mod Jwks
pub mod LogoutToken
pub mod Backchannel
pub mod Redirects
pub mod Origin
pub mod Cookies
pub mod Config
pub mod Callback
pub mod Endpoints
pub mod Gate
pub mod InternalRevoke
