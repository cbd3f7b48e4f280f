-- ===== src/Config.antt =====
-- config.go: from the text of a configuration to its values, and what the checks guarantee.
pub mod Json
pub mod Values
pub mod Objects
pub mod Retry
pub mod Backends
pub mod Sites
pub mod Prefixes
pub mod Decode
pub mod Schema
pub mod Checked
pub mod Accepted
pub mod Whole
mod Tests
