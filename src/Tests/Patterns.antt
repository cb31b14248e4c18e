-- ===== src/Tests/Patterns.antt =====
-- Runs of the parsers on texts of the shape that the pack writes.
use ggen_igniter.Base.{String, some, none, List, [], ◌∷◌, ◌≡◌, refl, true}
use ggen_igniter.Base.Sort.{str_le}
use ggen_igniter.Drift.Parse.{parse_ontology}
use ggen_igniter.Drift.Rendered.{drift_check}
use ggen_igniter.Citation.Parse.{parse_pins, parse_lock}
use ggen_igniter.Evidence.{Reference}
use ggen_igniter.Evidence.References.{references}

abbrev pub desk_ontology : String
desk_ontology =
    "amp:Desk a amp:Domain ;\n    amp:domainModule \"Helpdesk\" .\n\namp:Ticket a amp:Resource ;\n    amp:resourceModule \"Helpdesk.Ticket\" ;\n    amp:defaultAction \"read\" , \"create\" .\n\namp:Subject a amp:Attribute ;\n    amp:attributeOf amp:Ticket ;\n    amp:attributeName \"subject\" ;\n    amp:attributeType \"string\" ;\n    amp:isRequired true ;\n    amp:isPublic true .\n\namp:Status a amp:SupportModule ;\n    amp:supportModuleName \"Helpdesk.Status\" ;\n    amp:supportKind \"enum\" ;\n    amp:enumValue \"open\" , \"closed\" .\n\namp:GenDomain a amp:GeneratorCapability ;\n    amp:mixTask \"ash.gen.domain\" ;\n    amp:admitted true .\n\namp:GenResource a amp:GeneratorCapability ;\n    amp:mixTask \"ash.gen.resource\" ;\n    amp:admitted true .\n\namp:GenEnum a amp:GeneratorCapability ;\n    amp:mixTask \"ash.gen.enum\" ;\n    amp:admitted true .\n"

desk_read : parse_ontology desk_ontology ≡ record {
  domains = "Helpdesk" ∷ [];
  resources = "Helpdesk.Ticket" ∷ [];
  attributes =
      record { resource = "Helpdesk.Ticket"; flag = "subject:string:public:required" } ∷ [];
  relationships = [];
  supports =
      record {
        module_name = "Helpdesk.Status";
        kind = "enum";
        enum_values = "open" ∷ "closed" ∷ [];
      }
      ∷ [];
  default_actions =
      record { resource = "Helpdesk.Ticket"; value = "read" }
      ∷ record { resource = "Helpdesk.Ticket"; value = "create" }
      ∷ [];
  capabilities =
      ("ash.gen.domain", true) ∷ ("ash.gen.resource", true) ∷ ("ash.gen.enum", true) ∷ [];
  extensions = [];
  parse_failures = [];
}
unfolding parse_ontology
desk_read = refl

abbrev pub desk_task : String
desk_task =
    "    %{task: \"ash.gen.domain\",\n      argv: [\"Helpdesk\"],\n      subject: \"Helpdesk\"},\n    %{task: \"ash.gen.resource\",\n      argv: [\"Helpdesk.Ticket\", \"--attribute\", \"subject:string:public:required\", \"--default-actions\", \"create,read\"],\n      subject: \"Helpdesk.Ticket\"},\n    %{task: \"ash.gen.enum\",\n      argv: [\"Helpdesk.Status\", \"closed,open\"],\n      subject: \"Helpdesk.Status\"}\n"

desk_drift : drift_check desk_ontology desk_task ≡ []
unfolding drift_check str_le
desk_drift = refl

-- A class whose blocks the parser does not find is reported as vacuous.
abbrev pub odd_ontology : String
odd_ontology = "amp:Desk a amp:Domain;\n    amp:domainModule \"Helpdesk\" .\n"

odd_read :
    (parse_ontology odd_ontology).parse_failures
    ≡ "PARSE VACUOUS: ontology declares amp:Domain instances but the block parse produced no rows"
      ∷ []
unfolding parse_ontology
odd_read = refl

pins_read :
    parse_pins
      "amp:AshPin a amp:DependencyPin ;\n  amp:pinnedDep \"ash\" ;\n  amp:pinnedVersion \"3.5.1\" .\n"
    ≡ ("amp:AshPin", record { dep = "ash"; version = "3.5.1" }) ∷ []
unfolding parse_pins
pins_read = refl

lock_read :
    parse_lock (some ("%{" ∷ "  \"ash\": {:hex, :ash, \"3.5.1\", \"9f86\"}," ∷ "}" ∷ []))
    ≡ some (("ash", "3.5.1") ∷ [])
unfolding parse_lock
lock_read = refl

abbrev install_references : List Reference
install_references =
    record { path = "deps/ash/install.ex"; start = some 40; end_line = some 52 }
    ∷ record { path = "deps/ash/install.ex"; start = some 57; end_line = none }
    ∷ []

continuation_read :
    references "deps/ash/install.ex:40-52 (info), :57 (compile), change.ex:23-25"
    ≡ install_references
unfolding references
continuation_read = refl

-- The pattern takes `ex` before `exs`, so a script's lines are lost.
script_read :
    references "deps/ash/mix.exs:10-12"
    ≡ record { path = "deps/ash/mix.ex"; start = none; end_line = none } ∷ []
unfolding references
script_read = refl
