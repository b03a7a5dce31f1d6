-- ===== src/Jobman.antt =====
-- src/jobman.cxx: the manager of one queue, which takes pending jobs into its slots and runs them.
pub mod Retry
pub mod Slots
pub mod Group
pub mod Chores
pub mod Order
pub mod Startup
pub mod Timers
pub mod Command
pub mod Environment
pub mod Break
pub mod Run
pub mod Finish
pub mod Notify
