-- ===== src/Tests.antt =====
-- Tests of the definitions at concrete inputs, and the theorems at inputs that meet their hypotheses.
mod Sample
mod Ring
mod Queue
mod Waiting
mod Overflow
mod Flow
mod Handoff
mod Dismissal
mod Semaphores
mod Tokens
mod Lists
mod Numbers
mod Timers
mod Tasks
