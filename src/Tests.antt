-- ===== src/Tests.antt =====
-- Concrete data, and runs of the operations on it.
mod Sample
mod StoreRuns
mod PolicyRuns
mod DaemonRuns
mod ConfigRuns
mod SubmitRuns
mod WatchRuns
mod CliRuns
mod ShudodRuns
mod CallRuns
mod CommandRuns
mod ServeRuns
