-- ===== src/Core.antt =====
-- internal/core: the control-plane contract, its records and its recovery services.
pub mod Domain
pub mod Cleanup
pub mod Execution
pub mod Idle
pub mod Native
pub mod Profiles
pub mod Admission
