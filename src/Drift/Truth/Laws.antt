-- ===== src/Drift/Truth/Laws.antt =====
-- The findings of the report are true.
use ggen_igniter.Base.{List, is_empty, string_eq, All, All-of, All-map, All-append}
use ggen_igniter.Drift.{Ontology, Step, parse_failure, no_steps}
use ggen_igniter.Drift.Main.{forward, backward, drift}
use ggen_igniter.Drift.Truth.{IsTrue}
use ggen_igniter.Drift.Truth.Forward.{when-All, forward-IsTrue}
use ggen_igniter.Drift.Truth.Backward.{backward-IsTrue}

-- Every finding of the report is true of the ontology and the plan: a fact that it calls missing is in
-- the ontology, and the invocation for its resource or the step for its enum passes no such value; a
-- value that it calls invented is passed, and the ontology does not have it; a csv that it calls
-- disordered has the values of the ontology, each as often, in another order than the lexical one; a
-- task or a support module that it reports is composed, or not, and admitted, or not, as it says; and
-- so for the parse failures and for a plan without steps.
pub drift-IsTrue :
    (onto : Ontology) (steps : List Step) → All (IsTrue onto steps) (drift onto steps)
unfolding drift
drift-IsTrue onto steps =
    All-append (IsTrue onto steps) _ _
      (All-map (IsTrue onto steps) parse_failure onto.parse_failures
        (All-of _ onto.parse_failures (λ m i. i)))
      (All-append (IsTrue onto steps) _ _
        (when-All (IsTrue onto steps) (is_empty steps) no_steps (λ e. e))
        (All-append (IsTrue onto steps) (forward onto steps) (backward onto steps)
          (forward-IsTrue onto steps) (backward-IsTrue onto steps)))
