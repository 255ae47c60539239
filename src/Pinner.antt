-- ===== src/Pinner.antt =====
-- The pin manager: pinner/pinmgr.go and pinner/operation/operation.go.
pub mod Operation
pub mod Queue
pub mod Manager
pub mod Loop
mod Tests
pub mod Status
pub mod Block
