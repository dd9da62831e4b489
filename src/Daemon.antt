-- ===== src/Daemon.antt =====
-- internal/daemon/service.go: the broker behind the Unix socket.
pub mod Authority
pub mod Credentials
pub mod Limits
pub mod Submission
pub mod Submit
pub mod Watch
pub mod Records
pub mod Start
pub mod Decide
pub mod Execute
pub mod Calls
