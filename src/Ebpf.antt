-- ===== src/Ebpf.antt =====
-- crates/pgsleuth-ebpf and crates/pgsleuth-ebpf-common: the kernel half of the agent.
pub mod Events
pub mod Kernel
pub mod Trace
pub mod Block
pub mod File
pub mod Wire
mod Tests
