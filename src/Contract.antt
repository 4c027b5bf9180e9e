-- ===== src/Contract.antt =====
-- The addon local/Contract: recurring contracts, their lines and the invoices made from them.
pub mod Calendar
pub mod Line
pub mod Criteria
pub mod Allowed
pub mod Period
pub mod Checks
pub mod Billing
pub mod State
pub mod Store
pub mod Lifecycle
pub mod Invariant
pub mod Invoicing
pub mod Recurring
mod Tests
