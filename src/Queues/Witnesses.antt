-- ===== src/Queues/Witnesses.antt =====
-- The theorems on the queues core at concrete cases.
mod Naming
mod Scheduling
