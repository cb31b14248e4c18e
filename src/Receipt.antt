-- ===== src/Receipt.antt =====
-- `priv/ggen/ash-manufacture-pack/bin/receipt.py`: the oracles on the artifacts, the provenance of
-- the files, the standing, and the receipt with them.
pub mod Matrix
pub mod Oracles
pub mod Manifest
pub mod Provenance
pub mod Standing
pub mod World
pub mod Main
use ggen_igniter.Base.{String, Option, none, some}
use ggen_igniter.Ocel.{Value}

-- A step: what the script takes of a decoded line of `steps.jsonl`.
pub record StepRecord : Type 0 where
  pub label : String
  pub exit : Value
  pub expected : Value
