-- ===== src/Deal.antt =====
-- Deal making: deal. A content large enough waits in the deal queue; workers check how many deals it
-- still needs and make them.
pub mod Queue
pub mod Workers
pub mod Check
pub mod Replication
pub mod Making
pub mod Transfer
