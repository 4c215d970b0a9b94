-- ===== src/Explain.antt =====
-- internal/explain: explanations of exceptions.
pub mod Report
pub mod Builders
pub mod Service
pub mod Pairs
pub mod Answers
pub mod Panics
