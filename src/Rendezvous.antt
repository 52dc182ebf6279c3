-- ===== src/Rendezvous.antt =====
-- The rendezvous: its server, and the proxy beside each job that wants connections from outside.
pub mod Server
pub mod Proxy
pub mod Tunnel
pub mod Announced
pub mod Tests
