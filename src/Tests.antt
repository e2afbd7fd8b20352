-- ===== src/Tests.antt =====
-- Runs of the code at concrete inputs, and the theorems applied to them.
mod Data
mod Filters
mod Files
mod Setup
mod Tasks
mod Runs
mod Threads
mod Watcher
mod Loop
mod Flush
mod AtOnce
mod Deadline
mod Schedule
