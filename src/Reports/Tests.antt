-- ===== src/Reports/Tests.antt =====
-- The theorems about reports at concrete reports.
mod Samples
mod Runs
