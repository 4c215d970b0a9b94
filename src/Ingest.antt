-- ===== src/Ingest.antt =====
-- internal/ingest: the parser of custodians' files. encoding/csv is a parameter.
pub mod Parser
pub mod Rows
