-- ===== src/AuditLog.antt =====
-- bitemporal_log.py and signers.py: the audit log of job transitions on two time axes.
pub mod Entry
pub mod Signer
pub mod Writer
pub mod Verify
pub mod Queries
pub mod Chain
pub mod Recorded
pub mod Tamper
pub mod Reads
pub mod History
pub mod Current
pub mod Tests
