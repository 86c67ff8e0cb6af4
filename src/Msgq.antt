-- ===== src/Msgq.antt =====
-- lib/lmsgQLib.c: message queues.
pub mod Types
pub mod Ring
pub mod Registry
pub mod Send
pub mod Receive
pub mod Delete
pub mod Solo
pub mod Create
pub mod Handoff
pub mod Flow
