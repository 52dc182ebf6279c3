-- ===== src/Puppet.antt =====
-- puppet/src/main.rs: the client of the control socket inside the container, and the program that
-- uses it.
pub mod Client
pub mod Network
pub mod Main
pub mod Tests
