-- ===== src/Tcpdumpw.antt =====
-- tcpdumpw/main.go: the wrapper that configures and runs the capture.
pub mod Ephemeral
pub mod Setup
pub mod Tasks
pub mod Run
pub mod Jobs
pub mod Main
pub mod Deadline
pub mod Schedule
