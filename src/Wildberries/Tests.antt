-- ===== src/Wildberries/Tests.antt =====
-- The theorems on the synchronisation, at servers that answer with items of one kind.
mod Samples
mod Runs
