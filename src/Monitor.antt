-- ===== src/Monitor.antt =====
-- lse_monitor.c: the counters, the heartbeat and the watchdog, and the files below /proc that it
-- prints.
pub mod Stats
pub mod Watch
pub mod Proc
pub mod Alive
mod Printed
pub mod Tests
