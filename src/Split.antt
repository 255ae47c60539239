-- ===== src/Split.antt =====
-- Splitting contents that are too large for a deal: content/split.
pub mod Queue
pub mod Dag
