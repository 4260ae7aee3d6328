-- ===== src/Direct.antt =====
-- internal/direct: the Session that a client asks for directly.
pub mod Admission
