-- ===== src/Core.antt =====
-- The crate pgsleuth-core (crates/pgsleuth-core/src).
pub mod Window
pub mod Finding
