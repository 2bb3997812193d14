-- ===== src/Entry.antt =====
-- The load of the module: lse_main.c, with the initialisation functions of the parts that are
-- called there alone.
mod Early
pub mod Init
mod Idle
pub mod Ready
mod Tests
pub mod Waits
