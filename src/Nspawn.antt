-- ===== src/Nspawn.antt =====
-- nspawn-runner/src/main.rs: a runner whose jobs are systemd-nspawn containers.
pub mod Config
pub mod World
pub mod Reports
pub mod Zfs
pub mod Args
pub mod Start
pub mod Stop
pub mod Runner
pub mod Main
pub mod Query
pub mod Console
pub mod Resources
pub mod Tests
