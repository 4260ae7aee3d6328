-- ===== src/Control.antt =====
-- Control clients: internal/controlauth over internal/postgres.
pub mod Store
pub mod Service
pub mod Enrollment
pub mod Revocation
