-- ===== src/Index.antt =====
-- index.rs: the index over the store: what the sync protocol asks of it, and its maintenance.
pub mod Messages
pub mod Apply
pub mod Respond
pub mod Export
pub mod Maintain
pub mod Exchange
pub mod Reach
pub mod Own
