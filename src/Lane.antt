-- ===== src/Lane.antt =====
-- The scripts under receipts that read the step logs of a lane.
pub mod Exec
pub mod Log
pub mod Pin
pub mod Probe
