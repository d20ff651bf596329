-- ===== src/Server.antt =====
-- watch_daemon/api_impl.go: the watch daemon.
pub mod Watches
pub mod Intervals
pub mod State
pub mod Handlers
pub mod Invariant
pub mod Tables
pub mod Steps
pub mod Adding
pub mod Logging
pub mod Recording
pub mod Running
pub mod Calls
pub mod Reading
pub mod Answering
pub mod Lasting
pub mod Runs
pub mod Keeping
pub mod Worked
pub mod Watching
