-- ===== src/Pinner/Tests.antt =====
-- A queue that meets the interface, and the theorems of the pin manager at concrete states.
mod Memory
mod Examples
mod Restarts
mod Failures
