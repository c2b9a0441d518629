-- ===== src/JobQueue.antt =====
-- rfsn_job_queue.py: the priority queue of reasoning jobs of one process.
pub mod Job
pub mod Persist
pub mod Queue
pub mod Tasks
pub mod Slots
pub mod Order
pub mod Recovery
pub mod Tests
