-- ===== src/Shuttle.antt =====
-- The shuttles, nodes that store contents for the primary node: shuttle.
pub mod Location
pub mod Rpc
