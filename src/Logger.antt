-- ===== src/Logger.antt =====
-- src/lib/logger.h and logger.cpp: the JSON lines of the log.
pub mod Timestamp
pub mod File
pub mod Stamp
pub mod Reader
pub mod Event
pub mod Redact
pub mod Hides
pub mod Line
pub mod Lines
