-- ===== src/Threads.antt =====
-- The queues between threads, and the pool of threads, of src/base.
pub mod BoundedBlockingQueue
pub mod ThreadPool
mod Tests
