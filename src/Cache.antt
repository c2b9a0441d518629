-- ===== src/Cache.antt =====
-- persistent_cache.py: what is kept of solved problems between runs.
pub mod Entry
pub mod Entries
pub mod Results
pub mod Insert
pub mod Trust
pub mod Reads
pub mod Eviction
pub mod Writes
pub mod Recall
pub mod Trajectories
pub mod Learning
pub mod Kept
pub mod Learned
pub mod Retrieval
pub mod Masters
pub mod Routes
pub mod Recency
pub mod Tests
