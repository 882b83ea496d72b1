-- ===== src/Tests.antt =====
-- Tests, and an example of each theorem that has conditions.
mod Toy
mod Data
mod Examples
mod Owner
mod Tables
mod Local
mod Bytes
mod Engine
mod Archive
mod Tree
mod Serve
mod Fetch
mod Emit
mod Relay
mod Agree
