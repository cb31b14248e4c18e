-- ===== src/Receipt/Standing/Laws.antt =====
-- What the standing and the exit code say of the steps and of the artifacts.
use ggen_igniter.Base.{
  String, Option, List, [], ◌∷◌, Bool, true, false, not, ◌&&◌, ◌≡◌, refl, ◌↔◌, arith, is_empty_iff,
  filter-eq-nil, append-eq-nil, if◌then◌else◌, and_iff, eq_iff_eq, All, All-imp,
}
use ggen_igniter.Ocel.{value_eq}
use ggen_igniter.Receipt.{StepRecord}
use ggen_igniter.Receipt.Oracles.{
  Comparison, identical, differs, absent, same, compare_state, compare_state-same,
}
use ggen_igniter.Receipt.Standing.{
  Artifacts, igniter_check, step_did_not_run, step_failed, Evidence, standing, failed_comparison,
  failed_oracles, checks_clean, db_nondegenerate, as_expected, failures, exit_code, tree_fixpoint,
  db_identical,
}

-- The script exits with 0 exactly if every step ended with the exit expected of it.
pub exit_code-as_expected :
    (steps : List StepRecord)
    → (exit_code steps ≡ 0) ↔ All (λ (s : StepRecord). s.exit ≡ s.expected) steps
unfolding exit_code failures as_expected
exit_code-as_expected steps = (
  λ h.
      All-imp (λ (s : StepRecord) q. (eq_iff_eq s.exit s.expected).0 (ground (arith, q))) steps
        ((filter-eq-nil (λ s. not (as_expected s)) steps).0
          ((is_empty_iff (failures steps)).0 (ground (arith, h)))),
  λ h. rw ((filter-eq-nil (λ s. not (as_expected s)) steps).1 (All-imp expected_one steps h)),
)
  where
    expected_one : (s : StepRecord) → s.exit ≡ s.expected → not (as_expected s) ≡ false
    expected_one s q = rw ((eq_iff_eq s.exit s.expected).1 q)

module _ (digest : String → Option String) where
  comparison_iff :
      (name a b : String)
      → (failed_comparison name (compare_state digest a b) ≡ []) ↔ (same digest a b ≡ true)
  unfolding failed_comparison
  comparison_iff name a b = (
    λ h. (compare_state-same digest a b).0 (quiet (compare_state digest a b) h),
    λ h. rw ((compare_state-same digest a b).1 h),
  )
    where
      quiet : (c : Comparison) → failed_comparison name c ≡ [] → c ≡ identical
      quiet identical h = refl
      quiet differs h = cc
      quiet (absent files) h = cc

  -- The standing calls the idempotency alive exactly if the list of failed oracles is empty.
  pub standing-failed_oracles :
      (a : Artifacts) (steps : List StepRecord) (e : Evidence)
      → ((standing digest a steps e).idempotency_alive ≡ true)
        ↔ (failed_oracles digest a steps ≡ [])
  unfolding standing failed_oracles tree_fixpoint db_identical
  standing-failed_oracles a steps e = (
    λ h.
        let (clean, r) = (and_iff (checks_clean steps) _).0 h in
        let (trees, dbs) = (and_iff (same digest a.t1 a.t2 && same digest a.t2 a.t3) _).0 r in
        let (t12, t23) = (and_iff (same digest a.t1 a.t2) _).0 trees in
        let (ds, alive) = (and_iff (same digest a.d1 a.d2 && same digest a.d2 a.d3) _).0 dbs in
        let (d12, d23) = (and_iff (same digest a.d1 a.d2) _).0 ds in
        rw (
          clean,
          alive,
          (comparison_iff "db_D1_D2" a.d1 a.d2).1 d12,
          (comparison_iff "db_D2_D3" a.d2 a.d3).1 d23,
          (comparison_iff "tree_T1_T2" a.t1 a.t2).1 t12,
          (comparison_iff "tree_T2_T3" a.t2 a.t3).1 t23,
        ),
    λ h.
        let (clean, r₁) = (append-eq-nil _ _).0 h in
        let (d12, r₂) = (append-eq-nil _ _).0 r₁ in
        let (d23, r₃) = (append-eq-nil _ _).0 r₂ in
        let (t12, r₄) = (append-eq-nil _ _).0 r₃ in
        let (t23, alive) = (append-eq-nil _ _).0 r₄ in
        rw (
          checks_quiet (checks_clean steps) clean,
          db_quiet (db_nondegenerate steps) _ alive,
          (comparison_iff "db_D1_D2" a.d1 a.d2).0 d12,
          (comparison_iff "db_D2_D3" a.d2 a.d3).0 d23,
          (comparison_iff "tree_T1_T2" a.t1 a.t2).0 t12,
          (comparison_iff "tree_T2_T3" a.t2 a.t3).0 t23,
        ),
  )
    where
      checks_quiet : (b : Bool) → (if b then [] else igniter_check ∷ []) ≡ [] → b ≡ true
      checks_quiet b h = ground (arith, h)

      db_quiet :
          (b c : Bool)
          → (if b then [] else if c then step_did_not_run ∷ [] else step_failed ∷ []) ≡ []
          → b ≡ true
      db_quiet b c h = ground (arith, h)
