-- ===== src/Samples.antt =====
-- Concrete inputs, tests that run the definitions on them, and the theorems applied to them.
mod Numbers
mod Data
mod Recon
mod Trust
mod Replay
mod Explain
mod Lineage
mod Http
mod Ingest
mod System
mod Config
mod Engine
mod Startup
mod Db
