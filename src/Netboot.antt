-- ===== src/Netboot.antt =====
-- netboot-runner/src/main.rs: a runner whose jobs are machines that boot over the network.
pub mod Config
pub mod Start
pub mod Stop
pub mod Runner
pub mod Main
pub mod Query
pub mod Console
pub mod Tests
