-- ===== src/Concurrency.antt =====
-- critical_concurrency: a bounded queue, a semaphore and a barrier for threads.
pub mod Barrier
pub mod Monitor
pub mod Queue
pub mod Semamore
mod Tests
