-- ===== src/Settlements.antt =====
-- The settlements of agents' commissions: local/sale_commission_1/wizard/wizard_settle.py,
-- local/sale_commission_1/models/settlement.py and the lines of agents on invoices of
-- local/sale_commission_1/models/account_move.py.
pub mod Date
pub mod Period
pub mod Database
pub mod Settle
pub mod Found
pub mod Each
pub mod Action
pub mod Numbered
pub mod Added
pub mod Companies
pub mod Due
pub mod Once
pub mod Fitting
pub mod Fitted
pub mod States
pub mod Written
pub mod Single
pub mod Paid
pub mod Billed
pub mod Reach
mod Tests
