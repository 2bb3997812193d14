-- ===== src/Hooks.antt =====
-- lse_cfs.c, the hooks that the scheduler calls, the clocks of lse_main.c, and the extensions of
-- tasks in lse_task_struct_ext.c.
pub mod System
pub mod Hook
pub mod Guided
pub mod Cfs
pub mod Extension
pub mod Events
pub mod Sound
pub mod Exts
mod Steps
mod Callbacks
pub mod Run
pub mod Places
pub mod Waiting
pub mod Ticks
pub mod Lasting
pub mod Order
pub mod Freed
pub mod Samples
mod Tests
