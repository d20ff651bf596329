-- ===== src/Tests.antt =====
-- Runs of the model on concrete inputs, and the theorems applied to them.
pub mod Data
mod Collecting
mod Watching
mod Serving
mod Histories
mod Starting
mod Printing
mod Scanning
mod Calling
