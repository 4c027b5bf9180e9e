-- ===== src/Settlements/Tests.antt =====
-- The theorems on settlements at a calendar and at lines of agents.
mod Samples
mod Runs
