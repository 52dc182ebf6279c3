-- ===== src/Keys.antt =====
-- The keys of a job on their way from the coordinator's message to the file in its container: the
-- runners, their control sockets and the puppet together.
pub mod Journey
pub mod Tests
