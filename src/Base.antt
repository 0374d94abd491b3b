-- ===== src/Base.antt =====
-- base/: the queue between the server's threads.
pub mod LockFreeQueue
