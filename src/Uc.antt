-- ===== src/Uc.antt =====
-- src/uc: a second scheduler, in the making: its own ring, and the operations that it drives.
pub mod Ring
pub mod Operation
mod Tests
