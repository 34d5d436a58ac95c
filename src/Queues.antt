-- ===== src/Queues.antt =====
-- src/event/lockqueue.h, src/event/lockqueuemap.h and include/util.h. A `std::queue` is a list, its
-- front first. A mutex makes each operation one step, so a run of several threads is a list of
-- operations.
pub mod Fifo
pub mod LockQueue
pub mod LockQueueMap
pub mod Bossworker
pub mod Bossmultiworker
