-- ===== src/Sandbox.antt =====
-- internal/sandbox: what the provider adapters share.
pub mod Output
pub mod Files
