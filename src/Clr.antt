-- ===== src/Clr.antt =====
-- vibe_clr_async.py and scoring.py: the claim-level reliability run.
pub mod Floats
pub mod Claims
pub mod Confidence
pub mod Trajectory
pub mod Run
pub mod Modes
pub mod Honest
pub mod Budget
pub mod Early
pub mod Raises
pub mod Choice
pub mod Reliability
pub mod Tests
