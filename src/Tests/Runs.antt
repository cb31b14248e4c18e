-- ===== src/Tests/Runs.antt =====
-- Inputs of `conformance.py`: the two documents of a manufacture of one resource, which run 2 finds
-- in place, with the plan, the ledger and the capabilities behind them.
use ggen_igniter.Base.{
  String, none, some, List, [], ◌∷◌, true, false, ◌≡◌, refl, All, contains, filter, string_eq,
  option_eq, ◌==◌, count,
}
use ggen_igniter.Base.Dict.{Dict, lookup, insert, insert_all}
use ggen_igniter.Base.Exec.{ok, map_m}
use ggen_igniter.Base.Sort.{str_le}
use ggen_igniter.Ocel.{
  Value, int, pos, text, Attribute, Relationship, RawEvent, Object, Doc, Event, or_empty, truthy,
}
use ggen_igniter.Conformance.{Step, Capability, LedgerRecord, Ledger, ledger_label}
use ggen_igniter.Conformance.Parse.{parse_admitted, parse_plan}
use ggen_igniter.Conformance.Structure.{check_structure}
use ggen_igniter.Conformance.Structure.Laws.{IsStructured, check_structure_iff}
use ggen_igniter.Conformance.Seal.{check_seal_ledger, is_seal, phase_of_name}
use ggen_igniter.Conformance.Seal.Laws.{IsCorroborated, check_seal_ledger_iff}
use ggen_igniter.Conformance.Coverage.{check_coverage}
use ggen_igniter.Conformance.Coverage.Covered.{IsCovered}
use ggen_igniter.Conformance.Coverage.Laws.{IsSortable, check_coverage_iff}
use ggen_igniter.Conformance.Streams.{check_admission, check_refusal, check_order, phases_of}
use ggen_igniter.Conformance.Streams.Laws.{
  IsAdmitted, IsPhased, check_admission_iff, check_refusal_iff, check_order_iff,
}
use ggen_igniter.Conformance.{Violation}
use ggen_igniter.Conformance.Main.{check_documents}
use ggen_igniter.Conformance.Main.Documents.{IsSound, stream_of, documents-IsSound}
use ggen_igniter.Conformance.Subjects.{check_subjects_on_disk, underscore}
use ggen_igniter.Conformance.Subjects.Laws.{IsOnDisk, check_subjects_on_disk_iff}
use ggen_igniter.Conformance.Subjects.Laws.Paths.{all_chars, is_plain, underscore-all}

abbrev attribute : String → Value → Attribute
attribute name value = record { name = some name; value = some value }

abbrev relationship : String → String → Relationship
relationship object qualifier = record { object_id = some object; qualifier = some qualifier }

-- An event of the base phase, on the ticket's resource.
abbrev decision : String → String → RawEvent
decision id type = record {
  id = some id;
  type = some type;
  attributes = attribute "phase" (text "base") ∷ attribute "step" (text "step1") ∷ [];
  relationships =
      relationship "ash.gen.resource" "generator" ∷ relationship "Helpdesk.Ticket" "subject" ∷ [];
}

abbrev refusal : RawEvent
refusal = record {
  id = some "refusal";
  type = some "capability_refused";
  attributes = [];
  relationships = relationship "ash.gen.change" "generator" ∷ [];
}

abbrev seal : RawEvent
seal = record {
  id = some "seal";
  type = some "manufacture_run_applied";
  attributes = attribute "exit" (int (pos 0)) ∷ [];
  relationships = [];
}

abbrev object : String → String → Object
object id type = record { id = some id; type = some type }

abbrev doc_of : RawEvent → Doc
doc_of e = record {
  event_types = some (
      some "task_composed"
      ∷ some "task_admission_refused"
      ∷ some "capability_refused"
      ∷ some "manufacture_run_applied"
      ∷ []);
  object_types = some (some "Generator" ∷ some "Module" ∷ []);
  events = some (e ∷ refusal ∷ seal ∷ []);
  objects = some (
      object "ash.gen.resource" "Generator"
      ∷ object "ash.gen.change" "Generator"
      ∷ object "Helpdesk.Ticket" "Module"
      ∷ []);
}

abbrev pub composed_doc : Doc
composed_doc = doc_of (decision "decision" "task_composed")

abbrev pub refused_doc : Doc
refused_doc = doc_of (decision "decision" "task_admission_refused")

abbrev pub ticket_plan : List Step
ticket_plan =
    record {
      phase = "base";
      step = "step1";
      task = "ash.gen.resource";
      subject = "Helpdesk.Ticket";
    }
    ∷ []

abbrev pub ticket_capabilities : Dict String Capability
ticket_capabilities =
    ("ash.gen.resource", record { admitted = true; phase = some "base" })
    ∷ ("ash.gen.change", record { admitted = false; phase = none })
    ∷ []

-- The blocks of the ontology and the plan of the rendered task that the two above are read from.
abbrev pub ticket_ontology : String
ticket_ontology =
    "@prefix amp: <https://ggen.dev/amp#> .\n\namp:GenResource a amp:GeneratorCapability ;\n    amp:mixTask \"ash.gen.resource\" ;\n    amp:phase \"base\" ;\n    amp:admitted true .\n\namp:GenChange a amp:GeneratorCapability ;\n    amp:mixTask \"ash.gen.change\" ;\n    amp:admitted false .\n"

abbrev pub ticket_task : String
ticket_task =
    "  @plan [\n    %{phase: \"base\", step: \"step1\",\n      task: \"ash.gen.resource\",\n      subject: \"Helpdesk.Ticket\"}\n  ]\n  @refusals [%{task: \"ash.gen.change\"}]\n"

admitted_read : parse_admitted ticket_ontology ≡ ticket_capabilities
unfolding parse_admitted
admitted_read = refl

plan_read : parse_plan ticket_task ≡ ticket_plan
unfolding parse_plan
plan_read = refl

abbrev ledger_record : String → LedgerRecord
ledger_record label = record { label = some label; exit = some (int (pos 0)) }

abbrev pub ticket_records : List LedgerRecord
ticket_records = ledger_record "manufacture-base-run1" ∷ ledger_record "manufacture-base-run2" ∷ []

abbrev ticket_ledger : Ledger
ticket_ledger =
    ("manufacture-base-run1", ledger_record "manufacture-base-run1")
    ∷ ("manufacture-base-run2", ledger_record "manufacture-base-run2")
    ∷ []

abbrev pub ticket_file : String
ticket_file = "fixture/lib/helpdesk/ticket.ex"

abbrev decision_event : String → Event
decision_event id = record {
  id = id;
  type = "task_composed";
  attrs = ("phase", text "base") ∷ ("step", text "step1") ∷ [];
  objects = ("ash.gen.resource", "generator") ∷ ("Helpdesk.Ticket", "subject") ∷ [];
  task = some "ash.gen.resource";
  subject = some "Helpdesk.Ticket";
}

abbrev refusal_event : Event
refusal_event = record {
  id = "refusal";
  type = "capability_refused";
  attrs = [];
  objects = ("ash.gen.change", "generator") ∷ [];
  task = some "ash.gen.change";
  subject = none;
}

abbrev seal_event : Event
seal_event = record {
  id = "seal";
  type = "manufacture_run_applied";
  attrs = ("exit", int (pos 0)) ∷ [];
  objects = [];
  task = none;
  subject = none;
}

abbrev ticket_events : List Event
ticket_events = decision_event "decision" ∷ []

check_structure_iff_example : IsStructured composed_doc
unfolding check_structure str_le count
check_structure_iff_example = (check_structure_iff "run1/app.base.ocel.json" composed_doc).0 refl

check_seal_ledger_iff_example :
    All
      (IsCorroborated (ledger_label (phase_of_name "app.base.ocel.json") "run1") ticket_ledger)
      (filter is_seal (or_empty composed_doc.events))
unfolding check_seal_ledger filter map_m lookup insert_all insert
check_seal_ledger_iff_example =
    (check_seal_ledger_iff "run1/app.base.ocel.json" "run1" "app.base.ocel.json" composed_doc
        ticket_ledger).0
      refl

check_coverage_iff_example : IsSortable ticket_events × IsCovered ticket_plan ticket_events
unfolding check_coverage str_le
check_coverage_iff_example = (check_coverage_iff "run1" ticket_plan ticket_events).0 refl

check_admission_iff_example : All (IsAdmitted ticket_capabilities) ticket_events
unfolding check_admission
check_admission_iff_example = (check_admission_iff "run1" ticket_capabilities ticket_events).0 refl

check_refusal_iff_example :
    All
      (λ (c : String × Capability).
        c.1.admitted ≡ false → contains (some "ash.gen.change" ∷ []) (some c.0) ≡ true)
      ticket_capabilities
unfolding check_refusal
check_refusal_iff_example =
    (check_refusal_iff "run1" ticket_capabilities (some "ash.gen.change" ∷ [])).0 refl

check_order_iff_example : IsPhased (phases_of ticket_events)
unfolding check_order truthy
check_order_iff_example = (check_order_iff "run1" ticket_events).0 refl

check_subjects_on_disk_iff_example :
    All (IsOnDisk (λ path. path == ticket_file) "fixture") ticket_events
unfolding check_subjects_on_disk str_le
check_subjects_on_disk_iff_example =
    (check_subjects_on_disk_iff (λ path. path == ticket_file) "fixture" "run1" ticket_events).0 refl

acronym : underscore "MyApp.HTTPServer-V2" ≡ "my_app/http_server_v2"
unfolding underscore
acronym = refl

underscore-all_example : all_chars is_plain (underscore "MyApp.HTTPServer-V2") ≡ true
underscore-all_example = underscore-all "MyApp.HTTPServer-V2"

abbrev run1_documents : List (String × Doc)
run1_documents = ("app.base.ocel.json", composed_doc) ∷ []

abbrev run1_result : List Violation × List Event
run1_result = ([], decision_event "decision" ∷ refusal_event ∷ seal_event ∷ [])

run1_checked : check_documents "run1" ticket_ledger run1_documents ≡ ok run1_result
unfolding check_documents str_le count filter map_m lookup insert_all insert
run1_checked = refl

documents-IsSound_example :
    All (λ d. IsSound "run1" ticket_ledger d.0 d.1) run1_documents
    × (stream_of run1_documents ≡ ok run1_result.1)
documents-IsSound_example =
    documents-IsSound "run1" ticket_ledger run1_documents run1_result run1_checked refl
