-- ===== src/Hooks.antt =====
-- hooks: what Kratos and Hydra call (hooks/src).
pub mod Config
pub mod Kratos
pub mod Webhook
pub mod ProfileApi
pub mod Registration
pub mod TokenHook
pub mod Revocation
