-- ===== src/Logger.antt =====
-- The package logger (logger/): how a caller's fields are rendered into a log line.
pub mod Sanitize
