-- ===== src/Conformance/Main.antt =====
-- `main`: the checks over the two runs, the guard flip and the verdict.
pub mod Documents
pub mod Runs
pub mod Names
pub mod Accepted
pub mod Flip
pub mod Loaded
pub mod Laws
use Prim.Native.Nat.{◌+◌}
use Prim.Native.String.{◌++◌ as ◌<>◌}
use ggen_igniter.Base.{
  ℕ, String, Option, none, some, List, [], ◌∷◌, ◌++◌, Bool, true, false, ◌&&◌, ◌||◌, not, all,
  filter, flat_map, map, length, is_empty, if◌then◌else◌, ◌==◌, contains, string_eq, option_eq,
}
use ggen_igniter.Base.Sort.{sort, to_set, str_le}
use ggen_igniter.Base.Dict.{Dict}
use ggen_igniter.Base.Exec.{Result, ok, raised, guard, type_error, subscript, map_m, ◌>>=◌, ◌>>◌}
use ggen_igniter.Base.Text.{path_join, is_suffix}
use ggen_igniter.Ocel.{RawEvent, Doc, Event, or_empty, events_of, option_le, option_comparable}
use ggen_igniter.Conformance.{
  Violation, fixture_not_directory, not_one_task, zero_plan_steps, no_ledger, duplicate_label,
  missing_directory, missing_key, unsealed, sealed_as_aborted, no_guard_flip, Step, Capability,
  LedgerRecord, Ledger, load_ledger, seal_types, seal_aborted,
}
use ggen_igniter.Conformance.Parse.{parse_admitted, parse_plan}
use ggen_igniter.Conformance.Structure.{check_structure}
use ggen_igniter.Conformance.Seal.{check_seal_ledger, ocel_suffix}
use ggen_igniter.Conformance.Coverage.{check_coverage}
use ggen_igniter.Conformance.Subjects.{check_subjects_on_disk}
use ggen_igniter.Conformance.Streams.{of_type, check_admission, check_refusal, check_order}

-- What the script reads: the file system, the texts of the ontology and of a rendered task, and the
-- decoded documents and ledger.
pub record World : Type 0 where
  -- the texts of ontology.ttl and of a rendered task
  pub ontology : String
  pub read_task : String → String
  pub is_dir : String → Bool
  pub is_file : String → Bool
  -- sorted(os.listdir(path))
  pub list_dir : String → List String
  -- json.load of a document
  pub load_ocel : String → Doc
  -- sorted(glob.glob(...)) of the rendered manufacture tasks
  pub task_files : List String
  -- the decoded lines of steps.jsonl
  pub ledger_records : List LedgerRecord

-- `sorted` of a set of names that may hold `None`, which has no order with a text.
unfoldable pub sorted_options : List (Option String) → Result (List (Option String))
unfolding to_set sort all
sorted_options xs = do
  let names = to_set xs
  guard (all (λ a. all (λ b. a == b || option_comparable a b) names) names) type_error
  ok (sort option_le names)

-- An entry of `result["runs"]`.
pub record Summary : Type 0 where
  pub events : ℕ
  pub composed : List (Option String)
  pub composed_count : ℕ
  pub decisions : ℕ
  pub guarded_admission_refused : List (Option String)
  pub capability_refused : List (Option String)

-- What one run adds to the result: nothing under "runs" if its directory is missing.
pub record RunResult : Type 0 where
  pub violations : List Violation
  pub summary : Option Summary

pub record Verdict : Type 0 where
  pub violations : List Violation
  pub plan_steps : ℕ
  pub run1 : Option Summary
  pub run2 : Option Summary
  pub guard_flip : Option (List (Option String))
  pub conformant : Bool
  pub exit : ℕ

unfoldable pub is_absent {ℓ} : {A : Type ℓ} → Option A → Bool
is_absent none = true
is_absent (some a) = false

-- "%s/%s: missing required OCEL 2.0 key %r"
unfoldable pub key_violations : String → Doc → List Violation
unfolding is_absent
key_violations place doc =
    (if is_absent doc.event_types then missing_key place "eventTypes" ∷ [] else [])
    ++ ((if is_absent doc.object_types then missing_key place "objectTypes" ∷ [] else [])
        ++ ((if is_absent doc.events then missing_key place "events" ∷ [] else [])
            ++ (if is_absent doc.objects then missing_key place "objects" ∷ [] else [])))

-- `[e for e in doc.get("events", []) if e["type"] in (SEAL_APPLIED, SEAL_ABORTED)]`: the types.
unfoldable pub sealed_types : List RawEvent → Result (List String)
unfolding map_m filter
sealed_types events = do
  types ← map_m (λ (e : RawEvent). subscript e.type) events
  ok (filter (contains seal_types) types)

unfoldable pub seal_violations_of : String → List String → List Violation
unfolding filter
seal_violations_of place sealed =
    (if is_empty sealed then unsealed place ∷ [] else [])
    ++ map (λ _. sealed_as_aborted place) (filter (λ t. t == seal_aborted) sealed)

-- The body of the loop over the documents of a run: its findings and its events.
unfoldable pub check_document :
    String → Ledger → String → Doc → Result (List Violation × List Event)
unfolding key_violations sealed_types seal_violations_of check_structure check_seal_ledger events_of
check_document run ledger name doc = do
  let place = run <> ("/" <> name)
  structure ← check_structure place doc
  sealed ← sealed_types (or_empty doc.events)
  corroboration ← (if is_empty ledger then ok [] else check_seal_ledger place run name doc ledger)
  events ← events_of (or_empty doc.events)
  ok (
    key_violations place doc ++ (structure ++ (seal_violations_of place sealed ++ corroboration)),
    events,
  )

unfoldable pub check_documents :
    String → Ledger → List (String × Doc) → Result (List Violation × List Event)
unfolding check_document
check_documents run ledger [] = ok ([], [])
check_documents run ledger ((name, doc) ∷ docs) = do
  here ← check_document run ledger name doc
  rest ← check_documents run ledger docs
  ok (here.0 ++ rest.0, here.1 ++ rest.1)

module _ (w : World) (fixture out_dir : String) (plan : List Step) (ledger : Ledger) where
  -- The documents of a run, by name.
  unfoldable pub documents : String → List (String × Doc)
  unfolding filter is_suffix path_join
  documents ocel_dir =
      map (λ name. (name, w.load_ocel (path_join ocel_dir name)))
        (filter (is_suffix ocel_suffix) (w.list_dir ocel_dir))

  -- The checks of a run over its event stream, and its summary.
  unfoldable pub check_stream : String → List Event → Result RunResult
  unfolding of_type check_coverage check_admission check_refusal check_order check_subjects_on_disk
      sorted_options
  check_stream run events = do
    let composed = of_type "task_composed" events
    let guarded_off = of_type "task_admission_refused" events
    let refused = map (λ (e : Event). e.task) (of_type "capability_refused" events)
    coverage ← (if is_empty plan then ok [] else check_coverage run plan events)
    let subjects =
        if w.is_dir fixture then check_subjects_on_disk w.is_file run fixture composed else []
    composed_tasks ← sorted_options (map (λ (e : Event). e.task) composed)
    guarded ← sorted_options (map (λ (e : Event). e.subject) guarded_off)
    refused_tasks ← sorted_options refused
    ok (record {
      violations =
          coverage
          ++ (check_admission run (parse_admitted w.ontology) composed
              ++ (check_refusal run (parse_admitted w.ontology) refused
                  ++ (check_order run events ++ subjects)));
      summary = some (record {
        events = length events;
        composed = composed_tasks;
        composed_count = length composed;
        decisions = length composed + length guarded_off;
        guarded_admission_refused = guarded;
        capability_refused = refused_tasks;
      });
    })

  -- The body of the loop over the runs.
  unfoldable pub check_run : String → Result RunResult
  unfolding check_documents documents check_stream path_join
  check_run run = elim (w.is_dir (path_join out_dir ("ocel-" <> run))) [
    | false ↦ ok (record { violations = missing_directory run ∷ []; summary = none })
    | true ↦ do
      docs ← check_documents run ledger (documents (path_join out_dir ("ocel-" <> run)))
      stream ← check_stream run docs.1
      ok (record stream { violations = docs.0 ++ stream.violations })
  ]

-- The guarded steps of run 2 that run 1 had not refused, if both runs have a summary.
unfoldable pub guard_flip_of : Option Summary → Option Summary → Option (List (Option String))
unfolding filter sort
guard_flip_of (some r1) (some r2) = some (
    sort option_le
      (filter (λ s. not (contains r1.guarded_admission_refused s)) r2.guarded_admission_refused))
guard_flip_of none r2 = none
guard_flip_of (some r1) none = none

unfoldable pub flip_violations : Option (List (Option String)) → List Violation
flip_violations none = []
flip_violations (some flipped) = if is_empty flipped then no_guard_flip ∷ [] else []

-- The plan, and what is found on the way to it: exactly one task file is expected.
unfoldable pub plan_of : World → String → List String → List Violation × List Step
plan_of w task_glob (file ∷ []) = (
  (if is_empty (parse_plan (w.read_task file)) then zero_plan_steps file ∷ [] else []),
  parse_plan (w.read_task file),
)
plan_of w task_glob files = (not_one_task task_glob files ∷ [], [])

unfoldable pub load_plan : World → String → List Violation × List Step
unfolding plan_of
load_plan w task_glob = plan_of w task_glob w.task_files

-- The ledger, and what is found on the way to it.
unfoldable pub load_steps : World → String → List Violation × Ledger
unfolding load_ledger sort to_set
load_steps w ledger_path =
    if w.is_file ledger_path
    then (let loaded = load_ledger w.ledger_records in
        (map (duplicate_label ledger_path) (sort str_le (to_set loaded.1)), loaded.0))
    else (no_ledger ledger_path ∷ [], [])

-- The verdict, or the exception that ends the script before it prints one. The digests of the
-- inputs, which the script prints beside it, are left out.
unfoldable pub conformance : World → String → String → Result Verdict
unfolding load_plan load_steps check_run guard_flip_of flip_violations path_join
conformance w fixture out_dir = do
  let plan =
      load_plan w (
        path_join (path_join (path_join (path_join fixture "lib") "mix") "tasks")
          "*.manufacture.ex")
  let ledger = load_steps w (path_join out_dir "steps.jsonl")
  run1 ← check_run w fixture out_dir plan.1 ledger.1 "run1"
  run2 ← check_run w fixture out_dir plan.1 ledger.1 "run2"
  let flip = guard_flip_of run1.summary run2.summary
  let violations =
      (if w.is_dir fixture then [] else fixture_not_directory fixture ∷ [])
      ++ (plan.0 ++ (ledger.0 ++ (run1.violations ++ (run2.violations ++ flip_violations flip))))
  ok (record {
    violations = violations;
    plan_steps = length plan.1;
    run1 = run1.summary;
    run2 = run2.summary;
    guard_flip = flip;
    conformant = is_empty violations;
    exit = if is_empty violations then 0 else 1;
  })
