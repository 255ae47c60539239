-- ===== src/Tests.antt =====
-- Runs of the handlers on concrete tables.
mod Tables
mod Zones
mod Queues
mod Deals
mod Boxes
mod Making
mod Shuttles
mod Offloading
mod Rpc
mod Commitments
