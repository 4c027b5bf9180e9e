-- ===== src/Contract/Lifecycle.antt =====
-- The operations on contract lines of local/Contract/models/contract_line.py. A recordset is the
-- list of its ids; an exception ends the transaction, so it leaves no store.
pub mod Cancel
pub mod Stop
pub mod Successor
pub mod Suspend
pub mod Delay
pub mod Renew
pub mod Daily
