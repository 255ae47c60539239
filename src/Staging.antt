-- ===== src/Staging.antt =====
-- Staging zones: content/stagingzone. Small contents of a user are gathered in a zone until the zone
-- is large enough for a deal.
pub mod Queue
pub mod Creation
pub mod Consolidation
