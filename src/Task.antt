-- ===== src/Task.antt =====
-- lib/ltaskLib.c: tasks. See `Types` for the state.
pub mod Types
pub mod Table
pub mod Start
pub mod Lookup
pub mod Delete
pub mod Restart
pub mod Kernel
pub mod Main
pub mod Locking
pub mod Valid
