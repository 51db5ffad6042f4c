-- ===== src/Tasks/Witnesses.antt =====
-- Each theorem on a concrete case, on the sample store.
mod Dequeueing
mod Threading
mod Living
mod Requesting
