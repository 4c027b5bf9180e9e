-- ===== src/Contract/Tests.antt =====
-- The theorems of the contract addon at concrete lines, and runs of its methods.
mod Samples
mod Periods
mod States
mod Stores
mod Selections
mod Invoices
mod Renewals
