-- ===== src/Contents.antt =====
-- Contents and their blocks: content.
pub mod Gc
pub mod Offloading
pub mod Commp
