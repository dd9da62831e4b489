-- ===== src/Cli.antt =====
-- apps/cli/cmd/shudo/main.go: the command of the users and of root.
pub mod Parse
pub mod Reconcile
pub mod Select
pub mod Receive
pub mod Admin
pub mod Render
pub mod Command
