-- ===== src/Logger.antt =====
-- The log files of crates/ferrovela-lib/src/logger.rs: timestamps, rotation and the writing of a line.
pub mod Clock
pub mod Loops
pub mod Gregorian
pub mod Calendar
pub mod Files
pub mod Rotation
pub mod Tests
