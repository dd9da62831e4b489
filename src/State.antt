-- ===== src/State.antt =====
-- internal/state/state.go
pub mod Sql
pub mod Tables
pub mod Requests
pub mod Approvals
pub mod Output
pub mod Retention
pub mod Startup
pub mod Listing
pub mod History
pub mod Life
