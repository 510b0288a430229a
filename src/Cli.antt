-- ===== src/Cli.antt =====
-- The command line program, cmd/blades: its store of sessions and its scheduler.
pub mod Files
pub mod Session
pub mod Persistence
pub mod Cron
mod Witness
