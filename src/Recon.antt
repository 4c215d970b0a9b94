-- ===== src/Recon.antt =====
-- internal/recon: the reconciliation of positions and transactions.
pub mod Rules
pub mod Pairing
pub mod Keys
pub mod Persist
pub mod Engine
pub mod Outcomes
pub mod Loops
pub mod Effects
pub mod Recorded
pub mod Fitting
pub mod Kept
pub mod Safety
pub mod Traced
pub mod Status
pub mod Verdicts
pub mod Complete
pub mod Entries
pub mod Trail
pub mod Coverage
pub mod Unordered
pub mod Reasons
