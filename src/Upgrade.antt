-- ===== src/Upgrade.antt =====
-- internal/upgrade: package changes under a Session's delivery hold.
pub mod Receipt
pub mod Driver
pub mod Service
pub mod Cleanup
