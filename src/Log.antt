-- ===== src/Log.antt =====
-- The logging library, src/log.
pub mod Convert
pub mod FixedBuffer
pub mod LogStream
pub mod LogFile
pub mod AsyncLogging
pub mod Logging
mod Tests
