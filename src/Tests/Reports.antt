-- ===== src/Tests/Reports.antt =====
-- A run of `receipt.py` on a small tree of artifacts.
use ggen_igniter.Base.{
  String, none, some, List, [], ◌∷◌, true, ◌≡◌, refl, if◌then◌else◌, ◌==◌, string_eq,
}
use ggen_igniter.Base.Dict.{Dict, lookup}
use ggen_igniter.Base.Exec.{Result, ok, raised, key_error, decode_error, is_directory}
use ggen_igniter.Ocel.{Value, int, pos, text}
use ggen_igniter.Json.{Json, boolean, array, element, no_element, null}
use ggen_igniter.Receipt.World.{World}
use ggen_igniter.Receipt.Main.Parts.{Report}
use ggen_igniter.Receipt.Main.{main, report_of}
use ggen_igniter.Receipt.Main.Reads.{Readings}
use ggen_igniter.Receipt.Main.Laws.{IsAccount, main-IsAccount}
use ggen_igniter.Receipt.Main.Ends.{IsComplete, main_iff}

abbrev artifact_texts : Dict String String
artifact_texts =
    ("/q/steps.jsonl", "sync\n\n")
    ∷ ("/q/ocel-run1/a.json", "doc")
    ∷ ("/q/conformance.json", "verdict")
    ∷ ("/q/T0-day-zero.sha256", "9f86  mix.exs\n")
    ∷ ("/q/T2-run2.sha256", "9f86  mix.exs\n60ff  lib/a.ex\n")
    ∷ ("/p/ontology.ttl", "")
    ∷ []

abbrev directories : Dict String (List String)
directories = ("/q/ocel-run1", "a.json" ∷ []) ∷ ("/p/gates", "g.rq" ∷ []) ∷ []

abbrev decoded : String → Result (Dict String Json)
decoded t =
    if t == "doc"
    then ok (("events", array (element null no_element)) ∷ [])
    else if t == "verdict"
    then ok (("conformant", boolean true) ∷ [])
    else raised decode_error

abbrev decoded_step : String → Result (Dict String Value)
decoded_step line =
    if line == "sync"
    then ok (("label", text "ggen-sync") ∷ ("exit", int (pos 0)) ∷ ("expected", int (pos 0)) ∷ [])
    else if line == "half"
    then ok (("label", text "ggen-sync") ∷ ("exit", int (pos 0)) ∷ [])
    else raised decode_error

abbrev qualification : World
qualification = record {
  fixture = "/f";
  out_dir = "/q";
  pack = "/p";
  repo = "/r";
  contents = λ path. lookup path artifact_texts;
  listing = λ path. lookup path directories;
  sha256 = λ t. t;
  load = decoded;
  load_step = decoded_step;
  relpath = λ path start. path;
  sh = λ command cwd. "";
}

-- What the run reads.
abbrev read : Readings
read = record {
  steps = record { label = "ggen-sync"; exit = int (pos 0); expected = int (pos 0) } ∷ [];
  conformance = some (("conformant", boolean true) ∷ []);
  drift = none;
  docs =
      (
        "run1/a.json",
        record { event_types = 0; object_types = 0; events = 1; objects = 0; sha256 = some "doc" },
      )
      ∷ [];
  before = ("mix.exs", "9f86") ∷ [];
  after = ("mix.exs", "9f86") ∷ ("lib/a.ex", "60ff") ∷ [];
  ttl = "";
  db_name = none;
  ontology = record {
    path = "/p/ontology.ttl";
    sha256 = some "";
    gates = ("g.rq", none) ∷ [];
    template_sha256 = none;
  };
  lock = none;
  db_evidence = none;
}

-- What it prints.
abbrev printed : Report
printed = report_of qualification read

main_iff_example : IsComplete qualification
unfolding main
main_iff_example = (main_iff qualification).0 ((printed, 0), refl)

-- A step without its expected exit ends the script, and so does a directory among the documents.
half_step :
    main (record qualification {
      contents =
          λ path. if path == "/q/steps.jsonl" then some "half" else lookup path artifact_texts;
    })
    ≡ raised key_error
unfolding main
half_step = refl

directory_document :
    main (record qualification {
      listing = λ path. if path == "/q/ocel-run1/a.json" then some [] else lookup path directories;
    })
    ≡ raised is_directory
unfolding main
directory_document = refl

main-IsAccount_example : IsAccount qualification printed 0
unfolding main
main-IsAccount_example = main-IsAccount qualification printed 0 refl

process_alive : printed.standing.ocel_process_alive ≡ true
unfolding report_of
process_alive = refl

oracles_failed :
    printed.idempotency.failed_oracles
    ≡ "igniter_check: not every --check step exited 0 (see igniter_check_exits)"
      ∷ "db_D1_D2: UNKNOWN -- not exercised (missing D1-run1.txt,D2-run2.txt)"
      ∷ "db_D2_D3: UNKNOWN -- not exercised (missing D2-run2.txt,D3-run3.txt)"
      ∷ "tree_T1_T2: UNKNOWN -- not exercised (missing T1-run1.sha256)"
      ∷ "tree_T2_T3: UNKNOWN -- not exercised (missing T3-run3.sha256)"
      ∷ "db_nondegenerate: step did not run -- D1 was not shown to be a real schema capture, so every D-file comparison above is vacuous"
      ∷ []
unfolding report_of
oracles_failed = refl
