-- ===== src/Tests.antt =====
-- Concrete inputs: small runs of the definitions, and each theorem at an input of the kind that the
-- scripts meet.
mod Patterns
mod Patches
mod Again
mod Parses
mod Lanes
mod Probes
mod Runs
mod Verdicts
mod Plans
mod Receipts
mod Reports
mod Citations
