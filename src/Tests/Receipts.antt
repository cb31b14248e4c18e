-- ===== src/Tests/Receipts.antt =====
-- Inputs of `receipt.py`: three equal trees and databases, a ledger of steps, and two trees.
use ggen_igniter.Base.{
  String, Option, none, some, List, [], ◌∷◌, true, ◌≡◌, refl, All, if◌then◌else◌, contains,
  string_eq, ◌||◌,
}
use ggen_igniter.Base.Dict.{Dict, keys, insert}
use ggen_igniter.Base.Dict.Items.{NodupKeys}
use ggen_igniter.Base.Text.{is_prefix}
use ggen_igniter.Ocel.{Value, int, pos, value_eq}
use ggen_igniter.Receipt.{StepRecord}
use ggen_igniter.Receipt.Oracles.{same, compare_state, same_iff, compare_state-same}
use ggen_igniter.Receipt.Manifest.{manifest_paths}
use ggen_igniter.Receipt.Provenance.{provenance}
use ggen_igniter.Receipt.Provenance.Laws.{IsSplit, provenance-IsSplit}
use ggen_igniter.Receipt.Standing.{Artifacts, Evidence, failed_oracles, standing, exit_code}
use ggen_igniter.Receipt.Standing.Laws.{exit_code-as_expected, standing-failed_oracles}

abbrev tree_digest : String → Option String
tree_digest path = if is_prefix "tree/" path || is_prefix "db/" path then some "9f86d081" else none

abbrev artifacts : Artifacts
artifacts = record {
  t1 = "tree/T1";
  t2 = "tree/T2";
  t3 = "tree/T3";
  d1 = "db/D1";
  d2 = "db/D2";
  d3 = "db/D3";
}

abbrev zero_exit : Value
zero_exit = int (pos 0)

abbrev harness_steps : List StepRecord
harness_steps =
    record { label = "ggen-sync"; exit = zero_exit; expected = zero_exit }
    ∷ record { label = "idempotency-check-1"; exit = zero_exit; expected = zero_exit }
    ∷ record { label = "guard-handwrite"; exit = int (pos 1); expected = int (pos 1) }
    ∷ record { label = "db-nondegenerate"; exit = zero_exit; expected = zero_exit }
    ∷ []

abbrev harness_evidence : Evidence
harness_evidence = record { ocel_docs = "run1.ocel.json" ∷ []; conformance = some (some true) }

no_oracle_fails : failed_oracles tree_digest artifacts harness_steps ≡ []
unfolding failed_oracles is_prefix insert
no_oracle_fails = refl

standing-failed_oracles_example :
    (standing tree_digest artifacts harness_steps harness_evidence).idempotency_alive ≡ true
standing-failed_oracles_example =
    (standing-failed_oracles tree_digest artifacts harness_steps harness_evidence).1 no_oracle_fails

exit_code-as_expected_example : All (λ (s : StepRecord). s.exit ≡ s.expected) harness_steps
unfolding exit_code
exit_code-as_expected_example = (exit_code-as_expected harness_steps).0 refl

same_iff_example : (d : String) × (tree_digest "tree/T1" ≡ some d) × (tree_digest "db/D1" ≡ some d)
unfolding same is_prefix
same_iff_example = (same_iff tree_digest "tree/T1" "db/D1").0 refl

compare_state-same_example : same tree_digest "tree/T1" "db/D1" ≡ true
unfolding compare_state is_prefix
compare_state-same_example = (compare_state-same tree_digest "tree/T1" "db/D1").0 refl

abbrev first_tree : Dict String String
first_tree = ("lib/a.ex", "1") ∷ ("lib/b.ex", "2") ∷ ("lib/c.ex", "3") ∷ []

abbrev last_tree : Dict String String
last_tree = ("lib/b.ex", "5") ∷ ("lib/c.ex", "3") ∷ ("lib/d.ex", "4") ∷ []

trees_split : provenance first_tree last_tree ≡ record {
  handwritten_unchanged = "lib/c.ex" ∷ [];
  handwritten_modified = "lib/b.ex" ∷ [];
  handwritten_removed = "lib/a.ex" ∷ [];
  generated = "lib/d.ex" ∷ [];
}
unfolding provenance
trees_split = refl

first_tree-NodupKeys : NodupKeys first_tree
unfolding keys contains
first_tree-NodupKeys = (refl, (refl, (refl, tt)))

last_tree-NodupKeys : NodupKeys last_tree
unfolding keys contains
last_tree-NodupKeys = (refl, (refl, (refl, tt)))

provenance-IsSplit_example : IsSplit first_tree last_tree (provenance first_tree last_tree)
provenance-IsSplit_example =
    provenance-IsSplit first_tree last_tree first_tree-NodupKeys last_tree-NodupKeys

abbrev manifest_lines : List String
manifest_lines = "9f86  lib/a.ex" ∷ "" ∷ "60ff  lib/b.ex " ∷ "a1b2  lib/a.ex" ∷ []

manifest_read :
    manifest_paths (some manifest_lines) ≡ ("lib/a.ex", "a1b2") ∷ ("lib/b.ex", "60ff") ∷ []
unfolding manifest_paths
manifest_read = refl
