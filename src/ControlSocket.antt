-- ===== src/ControlSocket.antt =====
-- The runner's side of the control socket: what the two transports share, and each of them.
mod Defs
pub mod Unix
pub mod Tcp
pub mod Laws
pub mod Ending
pub mod Tests
pub use Defs.*
