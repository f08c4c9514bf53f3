-- ===== src/Loader.antt =====
-- crates/pgsleuth-ebpf-loader/src/main.rs: the loader of the kernel programs, and the rules over
-- their events.
pub mod Device
pub mod Filter
pub mod Median
pub mod Rule
pub mod Spill
pub mod Loop
pub mod SetUp
pub mod Main
mod Tests
