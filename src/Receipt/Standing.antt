-- ===== src/Receipt/Standing.antt =====
-- The steps, the oracles and the standing of `main`.
pub mod Laws
use ggen_igniter.Base.{
  ℕ, String, Option, none, some, List, [], ◌∷◌, ◌++◌, Bool, true, false, not, ◌&&◌, all, any,
  filter, is_empty, map, if◌then◌else◌, ◌==◌, string_eq, option_eq,
}
use ggen_igniter.Base.Dict.{Dict, from_pairs, insert_all}
use ggen_igniter.Base.Text.{is_prefix}
use ggen_igniter.Ocel.{Value, int, pos, value_eq}
use ggen_igniter.Receipt.{StepRecord}
use ggen_igniter.Receipt.Oracles.{Comparison, identical, differs, absent, same, compare_state}

-- The paths of the artifacts that the oracles compare.
pub record Artifacts : Type 0 where
  pub t1 : String
  pub t2 : String
  pub t3 : String
  pub d1 : String
  pub d2 : String
  pub d3 : String

-- The entries of `failed_oracles`.
pub data FailedOracle : Type 0 where
  igniter_check : FailedOracle
  not_exercised : String → List String → FailedOracle
  oracle_differs : String → FailedOracle
  step_did_not_run : FailedOracle
  step_failed : FailedOracle

-- What the standing reads besides the steps and the artifacts: whether conformance.json holds a
-- conformant verdict, and the documents that were found.
pub record Evidence : Type 0 where
  pub ocel_docs : List String
  pub conformance : Option (Option Bool)

pub record Standing : Type 0 where
  pub ontology_alive : Bool
  pub ash_manufacture_alive : Bool
  pub idempotency_alive : Bool
  pub ocel_process_alive : Bool
  pub agent_handwrite_refusal_alive : Bool
  pub ash_runtime_alive : Bool

-- `s["exit"] == s["expected"]`
unfoldable pub as_expected : StepRecord → Bool
as_expected s = s.exit == s.expected

-- `failed`
unfoldable pub failures : List StepRecord → List StepRecord
unfolding filter as_expected
failures steps = filter (λ s. not (as_expected s)) steps

unfoldable pub labelled : String → List StepRecord → List StepRecord
unfolding filter is_prefix
labelled prefix steps = filter (λ (s : StepRecord). is_prefix prefix s.label) steps

-- `any(s["label"] == lbl and s["exit"] == 0 for s in steps)`
unfoldable pub succeeded : List StepRecord → String → Bool
unfolding any
succeeded steps label = any (λ (s : StepRecord). s.label == label && s.exit == int (pos 0)) steps

-- The steps that guard against handwriting: there is one, and each exits as expected.
unfoldable pub guard_alive : List StepRecord → Bool
unfolding labelled all as_expected
guard_alive steps =
    not (is_empty (labelled "guard-" steps)) && all as_expected (labelled "guard-" steps)

unfoldable pub nondegenerate_steps : List StepRecord → List StepRecord
unfolding filter
nondegenerate_steps steps = filter (λ (s : StepRecord). s.label == "db-nondegenerate") steps

unfoldable pub db_nondegenerate : List StepRecord → Bool
unfolding nondegenerate_steps all as_expected
db_nondegenerate steps =
    not (is_empty (nondegenerate_steps steps)) && all as_expected (nondegenerate_steps steps)

-- `check_steps`: the exits of the idempotency checks by label, where a later step overwrites.
unfoldable pub check_steps : List StepRecord → Dict String Value
unfolding labelled insert_all
check_steps steps =
    from_pairs (map (λ (s : StepRecord). (s.label, s.exit)) (labelled "idempotency-check" steps))

unfoldable pub checks_clean : List StepRecord → Bool
unfolding check_steps all
checks_clean steps =
    not (is_empty (check_steps steps))
    && all (λ (c : String × Value). c.1 == int (pos 0)) (check_steps steps)

-- `bool(conformance) and conformance.get("conformant") is True`
unfoldable pub is_conformant : Option (Option Bool) → Bool
is_conformant none = false
is_conformant (some none) = false
is_conformant (some (some b)) = b

failed_comparison : String → Comparison → List FailedOracle
failed_comparison name identical = []
failed_comparison name differs = oracle_differs name ∷ []
failed_comparison name (absent files) = not_exercised name files ∷ []

module _ (digest : String → Option String) (a : Artifacts) (steps : List StepRecord) where
  unfoldable pub tree_fixpoint : Bool
  unfolding same
  tree_fixpoint = same digest a.t1 a.t2 && same digest a.t2 a.t3

  unfoldable pub db_identical : Bool
  unfolding same db_nondegenerate
  db_identical = (same digest a.d1 a.d2 && same digest a.d2 a.d3) && db_nondegenerate steps

  -- `failed_oracles`, with the comparisons in the order of their names.
  unfoldable pub failed_oracles : List FailedOracle
  unfolding checks_clean failed_comparison compare_state db_nondegenerate
  failed_oracles =
      (if checks_clean steps then [] else igniter_check ∷ [])
      ++ (failed_comparison "db_D1_D2" (compare_state digest a.d1 a.d2)
          ++ (failed_comparison "db_D2_D3" (compare_state digest a.d2 a.d3)
              ++ (failed_comparison "tree_T1_T2" (compare_state digest a.t1 a.t2)
                  ++ (failed_comparison "tree_T2_T3" (compare_state digest a.t2 a.t3)
                      ++ (if db_nondegenerate steps
                          then []
                          else if is_empty (nondegenerate_steps steps)
                          then step_did_not_run ∷ []
                          else step_failed ∷ [])))))

  unfoldable pub standing : Evidence → Standing
  unfolding tree_fixpoint db_identical checks_clean succeeded guard_alive all is_conformant
  standing e = record {
    ontology_alive = succeeded steps "ggen-sync";
    ash_manufacture_alive = all (succeeded steps) (
        "manufacture-base-run1" ∷ "manufacture-core-run1" ∷ "compile-after-core" ∷ "ash-setup"
        ∷ []);
    idempotency_alive = checks_clean steps && (tree_fixpoint && db_identical);
    ocel_process_alive = not (is_empty e.ocel_docs) && is_conformant e.conformance;
    agent_handwrite_refusal_alive = guard_alive steps;
    ash_runtime_alive =
        all (succeeded steps) ("ash-setup-test-env" ∷ "manufactured-resources-execute" ∷ []);
  }

-- `return 0 if not failed else 1`
unfoldable pub exit_code : List StepRecord → ℕ
unfolding failures
exit_code steps = if is_empty (failures steps) then 0 else 1
