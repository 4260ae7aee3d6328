-- ===== src/Persistence.antt =====
-- internal/persistence: checkpoints of a Sandbox, and its recovery from one.
pub mod Recovery
