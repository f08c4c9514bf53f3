-- ===== src/Postgres.antt =====
-- The crate pgsleuth-postgres (crates/pgsleuth-postgres/src): its collectors.
pub mod Activity
pub mod Checkpointer
pub mod Statements
