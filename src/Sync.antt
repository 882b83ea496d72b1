-- ===== src/Sync.antt =====
-- sync.rs: the catch-up engine, which fetches the backlog of an origin in windows of chunks, and
-- the leases on origins.
pub mod Catchup
pub mod Engine
pub mod Leases
pub mod Drain
pub mod Loop
