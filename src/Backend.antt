-- ===== src/Backend.antt =====
-- proxy.go: a backend of several targets.
pub mod Schedule
pub mod Health
pub mod Budget
pub mod Targets
pub mod Backoff
pub mod Attempts
pub mod ReplayBody
pub mod DirectBody
pub mod Retryable
mod Tests
