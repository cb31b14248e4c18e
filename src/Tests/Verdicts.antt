-- ===== src/Tests/Verdicts.antt =====
-- A whole manufacture, from its files to the verdict.
use ggen_igniter.Base.{some, [], ◌∷◌, true, ◌≡◌, refl, ◌==◌, ◌||◌, if◌then◌else◌, string_eq, count}
use ggen_igniter.Base.Exec.{ok}
use ggen_igniter.Base.Dict.{insert_all}
use ggen_igniter.Base.Sort.{str_le}
use ggen_igniter.Ocel.{truthy}
use ggen_igniter.Conformance.Parse.{parse_plan, parse_admitted}
use ggen_igniter.Conformance.Main.{World, Summary, Verdict, conformance}
use ggen_igniter.Conformance.Main.Laws.{IsConformant, conformance_iff}
use ggen_igniter.Tests.Runs.{
  composed_doc, refused_doc, ticket_ontology, ticket_task, ticket_records, ticket_file,
}

abbrev world : World
world = record {
  ontology = ticket_ontology;
  read_task = λ path. ticket_task;
  is_dir = λ path. path == "fixture" || (path == "out/ocel-run1" || path == "out/ocel-run2");
  is_file = λ path. path == ticket_file || path == "out/steps.jsonl";
  list_dir = λ path. "app.base.ocel.json" ∷ "notes.txt" ∷ [];
  load_ocel =
      λ path. if path == "out/ocel-run1/app.base.ocel.json" then composed_doc else refused_doc;
  task_files = "fixture/lib/mix/tasks/app.manufacture.ex" ∷ [];
  ledger_records = ticket_records;
}

abbrev run1_summary : Summary
run1_summary = record {
  events = 3;
  composed = some "ash.gen.resource" ∷ [];
  composed_count = 1;
  decisions = 1;
  guarded_admission_refused = [];
  capability_refused = some "ash.gen.change" ∷ [];
}

abbrev run2_summary : Summary
run2_summary = record {
  events = 3;
  composed = [];
  composed_count = 0;
  decisions = 1;
  guarded_admission_refused = some "Helpdesk.Ticket" ∷ [];
  capability_refused = some "ash.gen.change" ∷ [];
}

abbrev verdict : Verdict
verdict = record {
  violations = [];
  plan_steps = 1;
  run1 = some run1_summary;
  run2 = some run2_summary;
  guard_flip = some (some "Helpdesk.Ticket" ∷ []);
  conformant = true;
  exit = 0;
}

reached : conformance world "fixture" "out" ≡ ok verdict
unfolding conformance str_le insert_all count truthy parse_plan parse_admitted
reached = refl

conformance_iff_example : IsConformant world "fixture" "out"
conformance_iff_example = (conformance_iff world "fixture" "out").0 (verdict, reached, refl)
