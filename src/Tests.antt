-- ===== src/Tests.antt =====
-- Runs of the model on concrete packets, and the theorems at concrete inputs.
mod Rings
mod Control
mod Counters
mod Mirrored
mod Vips
mod Fixtures
mod Runs
mod Examples
mod Forwarding
mod Flows
