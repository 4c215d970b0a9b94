-- ===== src/Trust.antt =====
-- internal/trust: the trust score of an entity.
pub mod Scorer
pub mod Rationale
pub mod Bounds
pub mod Statuses
pub mod Order
pub mod Service
pub mod Persisted
pub mod Evidence
pub mod Computed
