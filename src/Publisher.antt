-- ===== src/Publisher.antt =====
-- The publisher, tools/md-publisher/src: it reads the official page, compares it with what the
-- broker serves, and publishes what changed.
pub mod Calls
pub mod Types
pub mod Broker
pub mod Upstream
pub mod Records
pub mod Store
pub mod Baseline
pub mod Detect
pub mod Attempt
pub mod Publish
pub mod Check
mod Tests
