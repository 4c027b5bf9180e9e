-- ===== src/Reports.antt =====
-- The reports of commission agents, of local/sale_commission_1.
pub mod Line
pub mod Status
pub mod Actions
pub mod Invoicing
pub mod Sections
pub mod Grouping
pub mod DueLines
pub mod Billable
pub mod Upselling
pub mod Reach
mod Tests
