-- ===== src/Contract/Invariant.antt =====
-- The operations on contract lines, under the invariant of the store.
pub mod Cancel
pub mod Stop
pub mod Successor
pub mod Suspend
pub mod Renew
pub mod Reach
