-- ===== src/Replay.antt =====
-- internal/replay: captured pairs of records, judged again by the rules.
pub mod Snapshots
pub mod Service
pub mod Assess
pub mod Cases
pub mod Captured
pub mod Unmatched
