-- ===== src/Api.antt =====
-- The messages of treadmill-rs/src/api.rs: between coordinator and runner, and between runner and
-- puppet.
pub mod Coord
pub mod Puppet
