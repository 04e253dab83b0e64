-- ===== src/Protect.antt =====
-- The login protection: internal/protect and internal/cli/commands_protect.go.
pub mod Threats
pub mod Config
pub mod Detector
pub mod Polling
