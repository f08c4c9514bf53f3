-- ===== src/Cli.antt =====
-- The agent's binary (crates/pgsleuth-cli/src).
pub mod TempSpill
pub mod CgroupThrottle
pub mod CollectActivity
pub mod CollectStatements
pub mod ConnectionStorm
pub mod CheckpointStorm
pub mod Main
pub mod Dispatch
