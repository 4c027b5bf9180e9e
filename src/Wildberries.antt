-- ===== src/Wildberries.antt =====
-- The addon local/connector_wb: the reports of the Wildberries service, kept in the database.
pub mod Rows
pub mod Columns
pub mod World
pub mod Service
pub mod Tables
pub mod Sync
pub mod Retry
pub mod Created
pub mod Day
pub mod Days
pub mod Interrupted
pub mod Twice
pub mod Pages
mod Tests
