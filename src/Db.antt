-- ===== src/Db.antt =====
-- internal/db/store.go: the tables, the program's actions on them, and one action per query. The
-- tables and the queries are in the children.
pub mod Tables
pub mod Exec
pub mod Laws
pub mod Ping
pub mod Keeps
pub mod Newest
pub mod Listed
pub mod Returns
pub mod Records
pub mod Recon
pub mod Exceptions
pub mod Replays
pub mod Scores
pub mod History
