-- ===== src/Tests/Plans.antt =====
-- Inputs of `drift_check.py`: an ontology of one domain, one resource with an attribute and a
-- relationship, and one enum, with the plan that composes it.
use ggen_igniter.Base.{
  All, String, some, List, [], ◌∷◌, ◌++◌, Bool, true, false, ◌≡◌, ◌↔◌, refl, contains, count, map,
  string_eq, pair_eq, ◌==◌, if◌then◌else◌,
}
use ggen_igniter.Base.Dict.{Dict, lookup, keys}
use ggen_igniter.Base.Dict.Items.{NodupKeys}
use ggen_igniter.Base.Sort.{str_le}
use ggen_igniter.Drift.{
  Fact, Ontology, Step, Invocations, by_module, projected_order, enum_value_missing, enum_order,
  action_order, flag_invented,
}
use ggen_igniter.Drift.Forward.{check_flags}
use ggen_igniter.Drift.Repeatable.{check_values}
use ggen_igniter.Drift.Repeatable.Laws.{check_values_iff}
use ggen_igniter.Drift.Backward.{check_values_traced, check_tasks}
use ggen_igniter.Drift.Flags.{Agrees, flags_agree}
use ggen_igniter.Drift.Tasks.{check_tasks_iff}
use ggen_igniter.Drift.Main.{drift}
use ggen_igniter.Drift.Truth.{IsTrue}
use ggen_igniter.Drift.Truth.Laws.{drift-IsTrue}

abbrev ticket_steps : List Step
ticket_steps =
    record { task = "ash.gen.domain"; argv = "Helpdesk" ∷ [] }
    ∷ record {
      task = "ash.gen.resource";
      argv =
          "Helpdesk.Ticket" ∷ "--attribute" ∷ "subject:string:required" ∷ "--relationship"
          ∷ "belongs_to:author:Helpdesk.User" ∷ "--default-actions" ∷ "read,create" ∷ [];
    }
    ∷ record { task = "ash.gen.enum"; argv = "Helpdesk.Status" ∷ "closed,open" ∷ [] }
    ∷ []

abbrev ticket_capabilities : Dict String Bool
ticket_capabilities =
    ("ash.gen.domain", true)
    ∷ ("ash.gen.resource", true)
    ∷ ("ash.gen.enum", true)
    ∷ ("ash.gen.change", false)
    ∷ []

abbrev ticket_attributes : List Fact
ticket_attributes = record { resource = "Helpdesk.Ticket"; flag = "subject:string:required" } ∷ []

abbrev ticket_ontology : Ontology
ticket_ontology = record {
  domains = "Helpdesk" ∷ [];
  resources = "Helpdesk.Ticket" ∷ [];
  attributes = ticket_attributes;
  relationships =
      record { resource = "Helpdesk.Ticket"; flag = "belongs_to:author:Helpdesk.User" } ∷ [];
  supports =
      record {
        module_name = "Helpdesk.Status";
        kind = "enum";
        enum_values = "open" ∷ "closed" ∷ [];
      }
      ∷ [];
  default_actions =
      record { resource = "Helpdesk.Ticket"; value = "read" }
      ∷ record { resource = "Helpdesk.Ticket"; value = "create" }
      ∷ [];
  capabilities = ticket_capabilities;
  extensions = [];
  parse_failures = [];
}

tasks_admitted : check_tasks ticket_steps ticket_capabilities ≡ []
unfolding check_tasks str_le
tasks_admitted = refl

abbrev ticket_invocations : Invocations
ticket_invocations =
    (
      "Helpdesk.Ticket",
      "Helpdesk.Ticket" ∷ "--attribute" ∷ "subject:string:required" ∷ "--relationship"
          ∷ "belongs_to:author:Helpdesk.User" ∷ "--default-actions" ∷ "read,create" ∷ [],
    )
    ∷ []

-- The plan has the actions in the order of their text.
ticket_drift :
    drift ticket_ontology ticket_steps
    ≡ action_order "Helpdesk.Ticket" ("read" ∷ "create" ∷ []) ("create" ∷ "read" ∷ []) ∷ []
unfolding drift str_le
ticket_drift = refl

abbrev sorted_steps : List Step
sorted_steps =
    map
      (λ (s : Step). record s {
        argv = map (λ a. if a == "read,create" then "create,read" else a) s.argv;
      })
      ticket_steps

sorted_drift : drift ticket_ontology sorted_steps ≡ []
unfolding drift str_le
sorted_drift = refl

-- Three extensions, in two csvs.
abbrev extended_ontology : Ontology
extended_ontology = record ticket_ontology {
  extensions =
      record { resource = "Helpdesk.Ticket"; name = "AshArchival" }
      ∷ record { resource = "Helpdesk.Ticket"; name = "AshPaperTrail" }
      ∷ record { resource = "Helpdesk.Ticket"; name = "AshStateMachine" }
      ∷ [];
}

abbrev extended_steps : List Step
extended_steps =
    map
      (λ (s : Step). record s {
        argv =
            if s.task == "ash.gen.resource"
            then s.argv
              ++ ("--extend" ∷ "AshStateMachine" ∷ "--extend" ∷ "AshPaperTrail,AshArchival" ∷ [])
            else s.argv;
      })
      sorted_steps

-- The extensions are invented where the ontology has none.
invented_drift :
    drift ticket_ontology extended_steps
    ≡ flag_invented "--extend" "AshStateMachine" "Helpdesk.Ticket"
      ∷ flag_invented "--extend" "AshPaperTrail" "Helpdesk.Ticket"
      ∷ flag_invented "--extend" "AshArchival" "Helpdesk.Ticket"
      ∷ []
unfolding drift str_le
invented_drift = refl

drift-IsTrue_example :
    All (IsTrue ticket_ontology extended_steps) (drift ticket_ontology extended_steps)
drift-IsTrue_example = drift-IsTrue ticket_ontology extended_steps

ticket_invocations_read : by_module "ash.gen.resource" ticket_steps ≡ ticket_invocations
unfolding by_module
ticket_invocations_read = refl

ticket_invocations-NodupKeys : NodupKeys ticket_invocations
ticket_invocations-NodupKeys = (unfold keys contains in refl, tt)

flags_agree_example : Agrees "--attribute" ticket_attributes ticket_invocations
unfolding check_flags check_values_traced
flags_agree_example =
    (flags_agree "--attribute" ticket_attributes ticket_invocations ticket_invocations-NodupKeys).0
      (refl, (refl, tt))

-- A csv with a value too many is not reported, since it is not the right values in another order.
spare_value :
    check_values
      (enum_value_missing "Helpdesk.Status")
      (enum_order "Helpdesk.Status")
      ("open" ∷ "closed" ∷ "open" ∷ [])
      (projected_order ("open" ∷ "closed" ∷ []))
    ≡ []
unfolding check_values projected_order str_le
spare_value = refl

check_values_iff_example :
    ((v : String)
      → contains ("open" ∷ "closed" ∷ []) v ≡ true
      → contains ("closed" ∷ "open" ∷ []) v ≡ true)
    × (((v : String) → count ("closed" ∷ "open" ∷ []) v ≡ count ("open" ∷ "closed" ∷ []) v)
        → ("closed" ∷ "open" ∷ []) ≡ projected_order ("open" ∷ "closed" ∷ []))
unfolding check_values projected_order str_le
check_values_iff_example =
    (check_values_iff (enum_value_missing "Helpdesk.Status") (enum_order "Helpdesk.Status")
        ("closed" ∷ "open" ∷ []) ("open" ∷ "closed" ∷ [])).0
      refl

check_tasks_iff_example : (check_tasks ticket_steps ticket_capabilities ≡ []) ↔ (
    (task : String)
    → contains (map (λ (s : Step). s.task) ticket_steps) task ≡ true
    → lookup task ticket_capabilities ≡ some true)
check_tasks_iff_example = check_tasks_iff ticket_steps ticket_capabilities
