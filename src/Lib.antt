-- ===== src/Lib.antt =====
-- Moab is a task queue: accounts hold queues, clients enqueue tasks, and workers dequeue them,
-- keep them alive and report on them. The program is a set of replicated cores behind an API
-- server. This library is about the two cores and what runs against them: the tasks core,
-- pkg/tasks, which owns the tasks of each queue, their threads, the rate limiters, and the
-- counters and cursors; the queues core, pkg/queues, which owns the queues of each account and
-- their schedules; the validators before both, in the core and at the server; the worker of
-- pkg/workers that turns schedules into tasks; and the handlers of the API server that combine
-- calls.
--
-- How the parts interact. Each request of the core is one transaction over its tables: it commits,
-- or it is discarded on an error. Enqueue creates tasks, or overwrites the one that a dedupe key
-- points at. Dequeue refills the token bucket, returns lapsed leases to the queue or to the dead
-- letters, and then hands out due tasks. ReportStatus moves a task on behalf of the worker that
-- has its lease. A thread has one task at a time in the queue, its head; the transitions of a task
-- write the row and the index of its thread, but for the drop of an expired task in Dequeue. Two
-- garbage collections delete expired tasks and drain purged queues. In the queues core a queue is
-- found by its name through an index, and the schedules by their next time through another. The
-- worker asks for the schedules that are due, enqueues a task for each tick in the tasks core, and
-- reports the next tick back. A deleted queue leaves its schedules to a garbage collection.
--
-- Base: Boolean tests, lists measured by native numbers, faults and results, and, in Base/Word,
-- the machine integers as bit patterns with their wrap-around. A panic of the code (a division by
-- zero, an index out of range, a nil dereference, an unknown unit) is a fault, as is an error of a
-- table, and a refused call of the worker. Base/Transaction is the state and error monad of a
-- method: it reads and writes the contents, and transact commits or discards.
--
-- Honey: github.com/evrblk/yellowstone-common/honey and BadgerDB, which the repository does not
-- hold, as interfaces: Table for its tables, Index for its sorted indexes, with the behaviour that
-- the core relies on as fields. Honey/ListTable and Honey/ListIndex meet them by lists. The one
-- storage error is a missing row; which deletions report one is left to the table, but a row that
-- is there is always deleted.
--
-- Pagination: pkg/pagination/helpers.go, GetLimitWithDefaults, and the order of a page that is
-- read backwards; Pagination/Limits is about the page sizes.
--
-- Tasks/Types: the messages of pkg/corepb/tasks.proto, queues.proto and common.proto. Message
-- fields that the server and the validators always set (ids) are not optional.
--
-- Tasks/Monad: the contents of the tables (Db) and what a method does in its transaction (M). Keys
-- are records where the code joins fixed-width bytes.
--
-- Tasks/Access: the table methods of pkg/tasks/tasks.go, threads.go, expiration.go, counters.go,
-- queue_state.go, rate_limiters.go and purge_gc_records.go, one action for each.
--
-- Tasks/Threads: attachTaskToThread, detachTaskFromThread, rescheduleTaskInThread,
-- reconcileThreadHead and promoteNextThreadHead of pkg/tasks/core.go. Its children: Framing (what
-- they leave alone), Waiting (members while the head is out) and HandingOn (the next head).
--
-- Tasks/Lifecycle: createTask, deleteTask, heartbeatTask, handleTaskFailure, failTaskToRetry,
-- failTaskToDead and evictExcessDeadTasks; its children are about creation, deletion and retries.
--
-- Tasks/RateLimiter: getRefillInterval and the refill of the bucket in Dequeue.
--
-- Tasks/Dequeue: Dequeue, dequeueInProgressTasksBeforeTime and dequeueTasksBeforeTime. Its
-- children: Scanning (invariants of the scan), Pass (the steps of a pass), Bounds (limits and
-- gauges), Limiter (the handler with its bucket), Answers (the purge check and the transaction),
-- Cursor and Dangling (entries and threads that a pass loses).
--
-- Tasks/Enqueue: Enqueue, overwriteDuplicate, RestartTasks and restartTask; its children are about
-- ids, dedupe keys and restarts.
--
-- Tasks/Requests: GetTask, GetStatistics, ListTasks, ReportStatus, DeleteTasks and PurgeQueue; its
-- children are about reports and purges.
--
-- Tasks/Gc: RunTasksGarbageCollection and RunPurgeQueueGarbageCollection. The loop of the first,
-- and the loop over the pages of a queue in the second, take the budget plus one as fuel. That is
-- enough: each turn but the last visits at least one task, and the budget bounds the tasks.
--
-- Tasks/Restore: RestoreEntity of each section of a snapshot, with the shard test as a parameter.
--
-- Tasks/Samples and Tasks/Witnesses: a store of lists, and the theorems at concrete cases.
--
-- Validation: pkg/corepb/validators.go, the validators of the messages above; an adapter runs them
-- before the handler. Validation/Messages has those of the queues core; Validation/Soundness is
-- about what they guarantee.
--
-- Queues/Types and Queues/Access: the messages of pkg/corepb/queues.proto, and the table methods
-- of pkg/queues/queues.go, schedules.go, counters.go and gc_records.go.
--
-- Queues/Registry: CreateQueue, GetQueue, GetQueueByName, ListQueues, UpdateQueue, DeleteQueue and
-- SwapQueueId of pkg/queues/core.go. The loop of SwapQueueId over the pages of schedules takes the
-- number of schedules of the queue, plus one, as fuel; that is enough, since a page with a next
-- token has moved on. Its children: Moving (the schedules of a swapped queue), Names (the names
-- index), Changes (each operation on the names), Contract and Refinement (the abstract map) and
-- Versions (concurrent updates).
--
-- Queues/Schedules: CreateSchedule, GetSchedule, ListSchedules, UpdateSchedule, DeleteSchedule,
-- DequeSchedules and ReportSchedulesStatus. The parameter next_tick stands for time.LoadLocation
-- and gronx, from an expression, a time zone and a time to the next tick or an error. Its
-- children: Ticks, Retiming and Timing (the due index), Due and Delivery (DequeSchedules), and
-- Orphans (schedules without a queue).
--
-- Queues/Gc: RunQueuesGarbageCollection. Queues/Samples and Queues/Witnesses: a store of lists,
-- and the theorems at concrete cases.
--
-- Workers: the schedules worker of pkg/workers/queues.go, over the contents of both cores. The
-- loop over the ticks of a schedule takes the length of the window in nanoseconds as fuel, which
-- is enough where the ticks increase; the number of rounds of a pass is a parameter. One time
-- stamp serves the calls of a pass. Its children are about the ticks and about a pass that is
-- refused.
--
-- Server: pkg/server/v0/handler.go over both cores: getQueue with its cache, the defaults and
-- limits of entries, and the second call after a purge; Server/Handlers: Enqueue, Dequeue,
-- CreateQueue, DeleteQueue and PurgeQueue. The cache of yellowstone-common is an interface, of
-- which only the miss after a deletion is used; the drawn ids are a list, and each core call has a
-- time stamp. Server/Swapping and Server/Purging are about a purge and a stale cache.
-- Server/Validators: pkg/server/v0/validators.go, the checks of the fields, with the validators of
-- the requests in Server/Validators/Requests; base64, the cron expressions and the time zones are
-- parameters. Server/Validators/Agreement is about the two layers of validators. Cluster: the
-- contents of both cores.
--
-- Ids: pkg/ids/ids.go, the text of ids; base62 is an interface with its round trip, its alphabet
-- and that it gives some text for some bytes.
--
-- Not modelled: the handlers of the API server that make one call, the conversion of its messages,
-- the sharding of requests, the workers of the garbage collections, the byte encoding of keys and
-- rows, snapshots as streams, storage errors other than a missing row, a state in ListTasks that
-- the enumeration does not name, logging, and the conversion of pagination tokens.
pub mod Base
pub mod Cluster
pub mod Honey
pub mod Ids
pub mod Pagination
pub mod Queues
pub mod Server
pub mod Tasks
pub mod Validation
pub mod Workers
