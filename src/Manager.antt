-- ===== src/Manager.antt =====
-- src/dynamic/dynamic_write_manager.cpp: `DynamicWriteManager`. Its mutex makes each method one
-- step, so a method is a function from the manager to the manager and the method's result. The disk
-- is part of the state; what the file system grants to a call is an argument. Readers take the
-- published view, which is the pointer that the atomics exchange.
pub mod State
pub mod Flush
pub mod Writes
pub mod Reads
pub mod Lifecycle
pub mod Visible
pub mod Answers
pub mod Snapshots
pub mod LostMeta
pub mod OwnWrites
pub mod Runs
pub mod Opening
