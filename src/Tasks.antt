-- ===== src/Tasks.antt =====
-- pkg/tasks: the MoabTasks core, one per shard, which owns tasks and their threads, the rate
-- limiters, and the counters and cursors of each queue.
pub mod Types
pub mod Monad
pub mod Access
pub mod Threads
pub mod Lifecycle
pub mod RateLimiter
pub mod Dequeue
pub mod Enqueue
pub mod Requests
pub mod Gc
pub mod Restore
pub mod Samples
mod Witnesses
