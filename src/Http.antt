-- ===== src/Http.antt =====
-- internal/http: the HTTP API over the store and the services.
pub mod Messages
pub mod Handlers
pub mod Routes
pub mod Degraded
pub mod Reads
pub mod Writes
pub mod Upheld
pub mod Safety
pub mod Replies
