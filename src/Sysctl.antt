-- ===== src/Sysctl.antt =====
-- The sysctl interface: lse_sysctl.c. The variables and the table, what a handler does, and the
-- initialisation; and the file of lse_monitor.c that prints the variables.
pub mod Table
pub mod Memory
mod Status
pub mod Handlers
mod Written
mod Ranges
mod Limits
pub mod Rest
pub mod Toggles
pub mod Parts
mod Total
pub mod Samples
mod Tests
