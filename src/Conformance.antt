-- ===== src/Conformance.antt =====
-- `priv/ggen/ash-manufacture-pack/bin/conformance.py`: the vocabulary that its checks share, the
-- findings that they report, and the plan, the capabilities and the ledger that they read. Each
-- check is a child module; the loop over the runs and the verdict are in `Main`.
pub mod Structure
pub mod Seal
pub mod Coverage
pub mod Subjects
pub mod Streams
pub mod Parse
pub mod Main
use Prim.Native.String.{◌++◌ as ◌<>◌}
use ggen_igniter.Base.{
  ℕ, String, Option, none, some, List, [], ◌∷◌, ◌++◌, Bool, if◌then◌else◌, contains, string_eq,
}
use ggen_igniter.Base.Dict.{Dict, keys, insert}
use ggen_igniter.Ocel.{Value}

abbrev pub seal_applied : String
seal_applied = "manufacture_run_applied"

abbrev pub seal_aborted : String
seal_aborted = "manufacture_run_aborted"

-- `SEAL_APPLIED`, `SEAL_ABORTED`
abbrev pub seal_types : List String
seal_types = seal_applied ∷ seal_aborted ∷ []

abbrev pub decision_types : List String
decision_types = "task_composed" ∷ "task_admission_refused" ∷ []

-- `LEDGER_LABEL % (phase, run)`
abbrev pub ledger_label : String → String → String
ledger_label phase run = "manufacture-" <> (phase <> ("-" <> run))

-- A step of the rendered plan.
pub record Step : Type 0 where
  pub phase : String
  pub step : String
  pub task : String
  pub subject : String

pub record Capability : Type 0 where
  pub admitted : Bool
  pub phase : Option String

-- A decoded line of the harness ledger.
pub record LedgerRecord : Type 0 where
  pub label : Option String
  pub exit : Option Value

abbrev pub Ledger : Type 0
Ledger = Dict String LedgerRecord

-- One line of the ledger: a record without a label is passed over, and a label seen before is
-- reported as well as overwritten.
load_record : Option String → LedgerRecord → Ledger × List String → Ledger × List String
load_record none rec (steps, dupes) = (steps, dupes)
load_record (some label) rec (steps, dupes) =
    (insert label rec steps, (if contains (keys steps) label then dupes ++ (label ∷ []) else dupes))

load_records : Ledger × List String → List LedgerRecord → Ledger × List String
unfolding load_record
load_records state [] = state
load_records state (rec ∷ recs) = load_records (load_record rec.label rec state) recs

-- `load_ledger`, of the lines that are not blank, decoded.
unfoldable pub load_ledger : List LedgerRecord → Ledger × List String
unfolding load_records insert keys
load_ledger = load_records ([], [])

-- (phase, step, subject)
abbrev pub Key : Type 0
Key = Value × (Value × Value)

-- The findings, one constructor for each message of the script, with the values it prints.
pub data Violation : Type 0 where
  -- check_structure, at a document
  duplicate_event_id : String → Option String → Violation
  undeclared_event_type : String → Option String → Option String → Violation
  undeclared_object_id : String → Option String → Option String → Violation
  repeated_relationship : String → Option String → Option String × Option String → ℕ → Violation
  undeclared_object_type : String → Option String → Option String → Violation
  -- check_seal_ledger, at a document
  mistyped_seal : String → Option String → Value → String → Violation
  no_ledger_step : String → String → Value → Violation
  exit_mismatch : String → Value → String → Value → Violation
  -- check_coverage, at a run
  silent_phase : String → String → ℕ → Violation
  no_decision : String → Key → Violation
  double_count : String → Key → ℕ → ℕ → List String → Violation
  unplanned_decision : String → Key → List String → Violation
  -- check_subjects_on_disk, at a run
  missing_file : String → String → String → Violation
  -- main, before the runs
  fixture_not_directory : String → Violation
  not_one_task : String → List String → Violation
  zero_plan_steps : String → Violation
  no_ledger : String → Violation
  duplicate_label : String → String → Violation
  -- main, at a run
  missing_directory : String → Violation
  missing_key : String → String → Violation
  unsealed : String → Violation
  sealed_as_aborted : String → Violation
  undeclared_task : String → Option String → Violation
  not_admitted_task : String → Option String → Option String → Violation
  silently_skipped : String → String → Violation
  base_after_core : String → Violation
  -- main, after the runs
  no_guard_flip : Violation
