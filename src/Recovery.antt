-- ===== src/Recovery.antt =====
-- What a crash leaves of the dynamic layer: which state of the disk under
-- src/dynamic/dynamic_write_manager.cpp the next `open` recovers every answered record from.
pub mod Tables
pub mod Durable
pub mod Reopened
