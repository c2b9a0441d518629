-- ===== src/Federation.antt =====
-- federation_server.py: the coordinator that hands jobs to the workers of a swarm.
pub mod Job
pub mod State
pub mod Sorting
pub mod Lifecycle
pub mod Reap
pub mod Claim
pub mod Traces
pub mod Lease
pub mod Reputation
pub mod Trust
pub mod Identity
pub mod Server
pub mod Validation
mod Tests
