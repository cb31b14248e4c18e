-- ===== src/Receipt/Main/Inputs.antt =====
-- The artifacts that `main` reads: their paths, the counts of the OCEL documents, and the two trees.
use Prim.Native.String.{◌++◌ as ◌<>◌}
use ggen_igniter.Base.{String, Option, none, some, List, [], ◌∷◌, if◌then◌else◌, string_eq}
use ggen_igniter.Base.Dict.{Dict, insert, lookup}
use ggen_igniter.Base.Exec.{Result, ok, ◌>>=◌}
use ggen_igniter.Base.Sort.{sort, str_le}
use ggen_igniter.Base.Text.{path_join}
use ggen_igniter.Json.{Json}
use ggen_igniter.Receipt.World.{World, len, digest, file_lines, read_json, exists}
use ggen_igniter.Receipt.Manifest.{manifest_paths}
use ggen_igniter.Receipt.Standing.{Artifacts}
use ggen_igniter.Receipt.Main.Parts.{OcelCount}

module _ (w : World) where
  unfoldable pub out_path : String → String
  unfolding path_join
  out_path name = path_join w.out_dir name

  unfoldable pub artifacts : Artifacts
  unfolding out_path
  artifacts = record {
    t1 = out_path "T1-run1.sha256";
    t2 = out_path "T2-run2.sha256";
    t3 = out_path "T3-run3.sha256";
    d1 = out_path "D1-run1.txt";
    d2 = out_path "D2-run2.txt";
    d3 = out_path "D3-run3.txt";
  }

  -- The counts of a document that is there and not empty.
  unfoldable pub ocel_count : String → Dict String Json → Result OcelCount
  unfolding len lookup digest
  ocel_count path doc = do
    event_types ← len (lookup "eventTypes" doc)
    object_types ← len (lookup "objectTypes" doc)
    events ← len (lookup "events" doc)
    objects ← len (lookup "objects" doc)
    digested ← digest w path
    ok (record {
      event_types = event_types;
      object_types = object_types;
      events = events;
      objects = objects;
      sha256 = digested;
    })

  unfoldable pub add_doc :
      String
      → String
      → Option (Dict String Json)
      → Dict String OcelCount
      → Result (Dict String OcelCount)
  unfolding ocel_count insert
  add_doc key path none docs = ok docs
  add_doc key path (some []) docs = ok docs
  add_doc key path (some (m ∷ ms)) docs = do
    count ← ocel_count path (m ∷ ms)
    ok (insert key count docs)

  -- The loop over the sorted names of a directory.
  unfoldable pub add_docs :
      String → String → List String → Dict String OcelCount → Result (Dict String OcelCount)
  unfolding add_doc read_json path_join
  add_docs run d [] docs = ok docs
  add_docs run d (name ∷ names) docs = do
    doc ← read_json w (path_join d name)
    more ← add_doc (run <> ("/" <> name)) (path_join d name) doc docs
    add_docs run d names more

  unfoldable pub add_run :
      String
      → String
      → Option (List String)
      → Dict String OcelCount
      → Result (Dict String OcelCount)
  unfolding add_docs sort
  add_run run d none docs = ok docs
  add_run run d (some names) docs = add_docs run d (sort str_le names) docs

  unfoldable pub add_runs : List String → Dict String OcelCount → Result (Dict String OcelCount)
  unfolding add_run out_path
  add_runs [] docs = ok docs
  add_runs (run ∷ runs) docs = do
    more ← add_run run (out_path ("ocel-" <> run)) (w.listing (out_path ("ocel-" <> run))) docs
    add_runs runs more

  unfoldable pub ocel_docs : Result (Dict String OcelCount)
  unfolding add_runs
  ocel_docs = add_runs ("run1" ∷ "run2" ∷ "run3" ∷ []) []

  -- `t3 if os.path.exists(t3) else t2`
  unfoldable pub final_manifest : String
  unfolding exists artifacts
  final_manifest = if exists w artifacts.t3 then artifacts.t3 else artifacts.t2

  unfoldable pub t0 : String
  unfolding out_path
  t0 = out_path "T0-day-zero.sha256"

  -- `manifest_paths` of a path
  unfoldable pub tree_at : String → Result (Dict String String)
  unfolding manifest_paths file_lines
  tree_at path = do lines ← file_lines w path; ok (manifest_paths lines)

  unfoldable pub day_zero_tree : Result (Dict String String)
  unfolding tree_at t0
  day_zero_tree = tree_at t0

  unfoldable pub final_tree : Result (Dict String String)
  unfolding tree_at final_manifest
  final_tree = tree_at final_manifest
