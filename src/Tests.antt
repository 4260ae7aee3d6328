-- ===== src/Tests.antt =====
-- The theorems at concrete inputs.
mod Fixtures
mod StoreTests
mod FileTests
mod IdleTests
mod ControlTests
mod ProgressTests
mod AdmissionTests
mod SandboxTests
mod UpgradeTests
mod ServiceTests
mod CoreTests
mod RecoveryTests
