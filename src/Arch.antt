-- ===== src/Arch.antt =====
-- src/arch: the assembly of the two architectures, run by a small machine for each.
pub mod Words
pub mod X86
pub mod Aarch64
mod Tests
