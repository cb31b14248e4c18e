-- ===== src/Receipt/Main/Reads.antt =====
-- What `main` opens and lists, in the order of the script.
use ggen_igniter.Base.{String, Option, List, [], ◌∷◌, string_eq}
use ggen_igniter.Base.Dict.{Dict, insert, from_pairs}
use ggen_igniter.Base.Exec.{Result, ok, map_m, ◌>>=◌}
use ggen_igniter.Base.Sort.{sort, str_le}
use ggen_igniter.Base.Text.{path_join}
use ggen_igniter.Json.{Json}
use ggen_igniter.Receipt.{StepRecord}
use ggen_igniter.Receipt.World.{
  World, digest, read_json, read_steps, read_stripped, read_text, listdir, text_at, step_exits,
  step_record,
}
use ggen_igniter.Receipt.Main.Parts.{Ontology, OcelCount}
use ggen_igniter.Receipt.Main.Inputs.{out_path, artifacts, ocel_docs, day_zero_tree, final_tree}

-- The values of `main` that it has read.
pub record Readings : Type 0 where
  pub steps : List StepRecord
  pub conformance : Option (Dict String Json)
  pub drift : Option (Dict String Json)
  pub docs : Dict String OcelCount
  -- `day_zero_tree` and `final_tree`
  pub before : Dict String String
  pub after : Dict String String
  pub ttl : String
  pub db_name : Option String
  pub ontology : Ontology
  -- the text of mix.lock
  pub lock : Option String
  pub db_evidence : Option String

module _ (w : World) where
  unfoldable pub ontology_path : String
  unfolding path_join
  ontology_path = path_join w.pack "ontology.ttl"

  unfoldable pub gates_path : String
  unfolding path_join
  gates_path = path_join w.pack "gates"

  unfoldable pub template_path : String
  unfolding path_join
  template_path = path_join (path_join w.pack "templates") "manufacture.ex.eex"

  unfoldable pub lock_path : String
  unfolding path_join
  lock_path = path_join w.fixture "mix.lock"

  unfoldable pub gate_digest : String → Result (String × Option String)
  unfolding digest gates_path path_join
  gate_digest name = do digested ← digest w (path_join gates_path name); ok (name, digested)

  unfoldable pub gate_digests : List String → Result (Dict String (Option String))
  unfolding gate_digest map_m insert sort
  gate_digests names = do pairs ← map_m gate_digest (sort str_le names); ok (from_pairs pairs)

  unfoldable pub ontology : Result Ontology
  unfolding digest ontology_path listdir gates_path gate_digests template_path
  ontology = do
    digested ← digest w ontology_path
    names ← listdir w gates_path
    gates ← gate_digests names
    template ← digest w template_path
    ok (record {
      path = w.relpath ontology_path w.repo;
      sha256 = digested;
      gates = gates;
      template_sha256 = template;
    })

  -- The artifacts that `same` and `compare_state` digest: each is digested, and any of them that is a
  -- directory ends the script alike.
  unfoldable pub compared : List String
  unfolding artifacts
  compared =
      (artifacts w).t1
      ∷ (artifacts w).t2
      ∷ (artifacts w).t3
      ∷ (artifacts w).d1
      ∷ (artifacts w).d2
      ∷ (artifacts w).d3
      ∷ []

  -- The reads of `main`. Those that it repeats are not written again.
  unfoldable pub read_inputs : Result Readings
  unfolding read_steps map_m step_exits read_json out_path step_record digest compared ocel_docs
      day_zero_tree final_tree read_text ontology_path read_stripped ontology text_at lock_path
  read_inputs = do
    lines ← (read_steps w)
    exits ← map_m step_exits lines
    conformance ← read_json w (out_path w "conformance.json")
    drift ← read_json w (out_path w "drift.json")
    steps ← map_m step_record lines
    digests ← map_m (digest w) compared
    docs ← (ocel_docs w)
    before ← (day_zero_tree w)
    after ← (final_tree w)
    ttl ← read_text w ontology_path
    db_name ← read_stripped w (out_path w "db-name.txt")
    about_ontology ← ontology
    lock ← text_at w lock_path
    db_evidence ← read_stripped w (out_path w "db-isolation.txt")
    ok (record {
      steps = steps;
      conformance = conformance;
      drift = drift;
      docs = docs;
      before = before;
      after = after;
      ttl = ttl;
      db_name = db_name;
      ontology = about_ontology;
      lock = lock;
      db_evidence = db_evidence;
    })
