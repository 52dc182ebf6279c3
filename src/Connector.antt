-- ===== src/Connector.antt =====
-- treadmill-rs/src/connector.rs and the two connectors: what a runner reports about a job, the order
-- in which a coordinator may see it, and how a runner's messages come to it.
pub mod Lifecycle
pub mod Reports
pub mod Runner
pub mod Sse
pub mod Dummy
pub mod Program
pub mod Tests
