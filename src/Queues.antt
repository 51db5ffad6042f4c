-- ===== src/Queues.antt =====
-- pkg/queues: queues and their schedules.
pub mod Types
pub mod Access
pub mod Registry
pub mod Schedules
pub mod Gc
pub mod Samples
mod Witnesses
