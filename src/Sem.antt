-- ===== src/Sem.antt =====
-- lib/lsemLib.c: semaphores.
pub mod Types
pub mod Registry
pub mod Give
pub mod Take
pub mod Delete
pub mod Mutex
pub mod Counting
pub mod Exclusion
pub mod Cases
pub mod Token
pub mod Nested
pub mod Create
pub mod Drain
pub mod Handoff
pub mod Fifo
