-- ===== src/Conformance/Coverage/Laws.antt =====
-- What `check_coverage` accepts: as many decisions as the plan has steps of a key, or fewer, but
-- not none.
use ggen_igniter.Base.{
  String, List, [], Bool, true, ◌≡◌, sym, ◌∙◌, ◌↔◌, inl, inr, all, ◌==◌, contains, Bool-cases,
  all_pairs_iff, string_eq, pair_eq, ◌||◌,
}
use ggen_igniter.Base.Dict.{keys, group}
use ggen_igniter.Base.Exec.{Result, ok, raised, type_error, ok_inj}
use ggen_igniter.Ocel.{Event, value_eq}
use ggen_igniter.Conformance.{Violation, Step, Key}
use ggen_igniter.Conformance.Coverage.{decisions_of, key_comparable, check_coverage}
use ggen_igniter.Conformance.Coverage.Covered.{
  IsCovered, decision_keys, contains-observed, coverage_iff,
}

-- Python can order the keys of the decisions.
pub IsSortable : List Event → Type 0
IsSortable events =
    (j k : Key)
    → contains (decision_keys events) j ≡ true
    → contains (decision_keys events) k ≡ true
    → (j == k || key_comparable j k) ≡ true

IsSortable-iff :
    (events : List Event)
    → (let observed = keys (group (decisions_of events)) in
        all (λ j. all (λ k. j == k || key_comparable j k) observed) observed ≡ true)
      ↔ IsSortable events
unfolding IsSortable
IsSortable-iff events = (
  λ h j k m n.
      (all_pairs_iff (λ j k. j == k || key_comparable j k) (keys (group (decisions_of events)))).0 h
        j k (contains-observed [] events j ∙ m) (contains-observed [] events k ∙ n),
  λ h.
      (all_pairs_iff (λ j k. j == k || key_comparable j k) (keys (group (decisions_of events)))).1
        (λ j k m n.
          h j k (sym (contains-observed [] events j) ∙ m)
            (sym (contains-observed [] events k) ∙ n)),
)

-- The coverage check returns, and with no finding, exactly if Python can order the keys of the
-- decisions and, for every (phase, step, subject), the stream has no more decisions than the plan
-- has steps, and at least one decision if the plan has a step.
pub check_coverage_iff :
    (run : String) (plan : List Step) (events : List Event)
    → (check_coverage run plan events ≡ ok []) ↔ (IsSortable events × IsCovered plan events)
unfolding check_coverage
check_coverage_iff run plan events = (
  λ h. elim (Bool-cases test) [
    | inl p ↦ ((IsSortable-iff events).0 p, (coverage_iff plan events run).0 (ok_inj (rw p at h)))
    | inr p ↦ absurd (raised_ne_ok (rw p at h))
  ],
  λ (s, c). rw ((IsSortable-iff events).1 s, (coverage_iff plan events run).1 c),
)
  where
    test : Bool
    test =
        let observed = keys (group (decisions_of events)) in
        all (λ j. all (λ k. j == k || key_comparable j k) observed) observed

    raised_ne_ok : ◌≡◌ {A = Result (List Violation)} (raised type_error) (ok []) → ⊥
    raised_ne_ok e = cc
