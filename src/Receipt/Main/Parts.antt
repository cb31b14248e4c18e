-- ===== src/Receipt/Main/Parts.antt =====
-- The document that `main` prints, by its keys.
use ggen_igniter.Base.{ℕ, String, Option, List, Bool}
use ggen_igniter.Base.Dict.{Dict}
use ggen_igniter.Ocel.{Value}
use ggen_igniter.Receipt.{StepRecord}
use ggen_igniter.Json.{Json}
use ggen_igniter.Receipt.Matrix.{Row}
use ggen_igniter.Receipt.Provenance.{Provenance}
use ggen_igniter.Receipt.Standing.{Standing}

pub record Subject : Type 0 where
  pub repo : String
  pub repo_head : String
  pub repo_branch : String
  pub repo_dirty : Bool
  pub fixture : String
  pub pack : String

pub record Ontology : Type 0 where
  pub path : String
  pub sha256 : Option String
  pub gates : Dict String (Option String)
  pub template_sha256 : Option String

pub record Toolchain : Type 0 where
  pub elixir : String
  pub erlang : String
  pub postgres : String
  pub deps : Dict String String

pub record Isolation : Type 0 where
  pub database : Option String
  pub evidence : Option String
  pub note : String

pub record Idempotency : Type 0 where
  pub igniter_check_exits : Dict String Value
  pub semantic_oracle : String
  pub tree_t1_sha256 : Option String
  pub tree_t2_sha256 : Option String
  pub tree_t3_sha256 : Option String
  pub tree_identical : Bool
  pub tree_fixpoint_t1_t2_t3 : Bool
  pub fixpoint_rationale : String
  pub db_d1_sha256 : Option String
  pub db_d2_sha256 : Option String
  pub db_d3_sha256 : Option String
  pub db_identical : Bool
  pub db_nondegenerate : Bool
  pub db_oracle : String
  pub db_oracle_scope : String
  pub oracle_states : Dict String String
  pub failed_oracles : List String

-- An entry of `ocel_docs`.
pub record OcelCount : Type 0 where
  pub event_types : ℕ
  pub object_types : ℕ
  pub events : ℕ
  pub objects : ℕ
  pub sha256 : Option String

pub record Refusal : Type 0 where
  pub hook : String
  pub wired_as : String
  pub cases : Dict String Value
  pub limit : String

pub record Files : Type 0 where
  pub provenance_basis : String
  pub provenance : Provenance

pub record Report : Type 0 where
  pub schema : String
  pub subject : Subject
  pub ontology : Ontology
  pub toolchain : Toolchain
  pub capability_matrix : Dict String Row
  pub commands : List StepRecord
  pub failures : List StepRecord
  pub database_isolation : Isolation
  pub idempotency : Idempotency
  pub ocel : Dict String OcelCount
  pub conformance : Option (Dict String Json)
  pub drift_check : Option (Dict String Json)
  pub agent_handwrite_refusal : Refusal
  pub files : Files
  pub replay : String
  pub standing : Standing
  pub scope : String
