-- ===== src/Shadow.antt =====
-- lse_shadow_tick.c: a timer of 1 ms on each busy CPU that advances the load tracking.
pub mod Timer
pub mod Armed
pub mod Tests
