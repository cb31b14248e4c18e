-- ===== src/Receipt/Main.antt =====
-- `main`: the receipt, from the artifacts of a run on.
pub mod Parts
pub mod Texts
pub mod Inputs
pub mod Reads
pub mod Counts
pub mod Laws
pub mod Returns
pub mod StepLines
pub mod Countable
pub mod Pack
pub mod Ends
use Prim.Native.String.{◌++◌ as ◌<>◌}
use ggen_igniter.Base.{
  ℕ, String, Option, none, some, List, [], ◌∷◌, Bool, true, false, not, ◌&&◌, is_empty, map,
  if◌then◌else◌, ◌==◌, string_eq,
}
use ggen_igniter.Base.Dict.{Dict, insert, lookup, keys, from_pairs}
use ggen_igniter.Base.Exec.{Result, ok, raised, map_m, ◌>>=◌}
use ggen_igniter.Base.Sort.{sort, str_le}
use ggen_igniter.Base.Text.{path_join, join}
use ggen_igniter.Ocel.{Value}
use ggen_igniter.Receipt.{StepRecord}
use ggen_igniter.Json.{Json, boolean}
use ggen_igniter.Receipt.World.{World, digest_value}
use ggen_igniter.Receipt.Main.Reads.{Readings, read_inputs}
use ggen_igniter.Receipt.Matrix.{lock_versions, capability_matrix}
use ggen_igniter.Receipt.Manifest.{manifest_paths}
use ggen_igniter.Receipt.Oracles.{
  Comparison, identical, differs, absent, basename, same, compare_state,
}
use ggen_igniter.Receipt.Provenance.{provenance}
use ggen_igniter.Receipt.Standing
use ggen_igniter.Receipt.Standing.{
  Artifacts, FailedOracle, igniter_check, not_exercised, oracle_differs, step_did_not_run,
  step_failed, Evidence, labelled, failures, check_steps, tree_fixpoint, db_identical,
  db_nondegenerate, failed_oracles, standing, exit_code,
}
use ggen_igniter.Receipt.Main.Parts.{
  Subject, Ontology, Toolchain, Isolation, Idempotency, OcelCount, Refusal, Files, Report,
}
use ggen_igniter.Receipt.Main.Texts.{
  schema, isolation_note, semantic_oracle, fixpoint_rationale, db_oracle, db_oracle_scope,
  refusal_hook, wired_as, refusal_limit, replay, scope,
}
use ggen_igniter.Receipt.Main.Inputs.{
  out_path, artifacts, ocel_count, add_doc, add_docs, add_run, add_runs, ocel_docs, final_manifest,
  t0, day_zero_tree, final_tree,
}

-- `guard_steps`
guard_steps : List StepRecord → Dict String Value
unfolding labelled insert
guard_steps steps =
    from_pairs (map (λ (s : StepRecord). (s.label, s.exit)) (labelled "guard-" steps))

-- The entries of `meaning`.
meaning : Dict String String
meaning =
    ("tree_T1_T2", "run 2 did not reproduce run 1's tree")
    ∷ (
      "tree_T2_T3",
      "run 3 did not reproduce run 2's tree, so the manufacturing path has no demonstrated fixpoint",
    )
    ∷ ("db_D1_D2", "re-running `mix ash.setup` changed the schema")
    ∷ ("db_D2_D3", "`mix ash.migrate` on run 3 changed the schema")
    ∷ []

text_or_empty : Option String → String
text_or_empty none = ""
text_or_empty (some s) = s

-- An entry of `failed_oracles` as it is printed.
oracle_text : FailedOracle → String
unfolding meaning lookup text_or_empty join
oracle_text igniter_check =
    "igniter_check: not every --check step exited 0 (see igniter_check_exits)"
oracle_text (not_exercised name files) =
    name <> (": UNKNOWN -- not exercised (missing " <> (join "," files <> ")"))
oracle_text (oracle_differs name) = name <> (": " <> text_or_empty (lookup name meaning))
oracle_text step_did_not_run =
    "db_nondegenerate: step did not run -- D1 was not shown to be a real schema capture, so every D-file comparison above is vacuous"
oracle_text step_failed =
    "db_nondegenerate: step failed -- D1 was not shown to be a real schema capture, so every D-file comparison above is vacuous"

-- What `compare_state` returns.
state_text : Comparison → String
unfolding join
state_text identical = "identical"
state_text differs = "differs"
state_text (absent files) = "absent:" <> join "," files

module _ (w : World) where
  subject : Subject
  subject = record {
    repo = w.repo;
    repo_head = w.sh "git rev-parse HEAD" (some w.repo);
    repo_branch = w.sh "git rev-parse --abbrev-ref HEAD" (some w.repo);
    repo_dirty = not (w.sh "git status --porcelain" (some w.repo) == "");
    fixture = w.relpath w.fixture w.repo;
    pack = w.relpath w.pack w.repo;
  }

  toolchain : Option String → Toolchain
  unfolding lock_versions
  toolchain lock = record {
    elixir = w.sh "elixir --version | tail -1" none;
    erlang =
        w.sh "erl -noshell -eval 'io:format(\"~s\", [erlang:system_info(otp_release)]), halt().'"
          none;
    postgres = w.sh "postgres -V" none;
    deps = lock_versions lock;
  }

  oracle_states : Dict String String
  unfolding artifacts state_text compare_state digest_value
  oracle_states =
      ("tree_T1_T2", state_text (compare_state (digest_value w) (artifacts w).t1 (artifacts w).t2))
      ∷ (
        "tree_T2_T3",
        state_text (compare_state (digest_value w) (artifacts w).t2 (artifacts w).t3),
      )
      ∷ ("db_D1_D2", state_text (compare_state (digest_value w) (artifacts w).d1 (artifacts w).d2))
      ∷ ("db_D2_D3", state_text (compare_state (digest_value w) (artifacts w).d2 (artifacts w).d3))
      ∷ []

  unfoldable pub idempotency : List StepRecord → Idempotency
  unfolding artifacts digest_value same oracle_states oracle_text failed_oracles check_steps
      tree_fixpoint db_identical db_nondegenerate
  idempotency steps = record {
    igniter_check_exits = check_steps steps;
    semantic_oracle = semantic_oracle;
    tree_t1_sha256 = digest_value w (artifacts w).t1;
    tree_t2_sha256 = digest_value w (artifacts w).t2;
    tree_t3_sha256 = digest_value w (artifacts w).t3;
    tree_identical = same (digest_value w) (artifacts w).t1 (artifacts w).t2;
    tree_fixpoint_t1_t2_t3 = tree_fixpoint (digest_value w) (artifacts w) steps;
    fixpoint_rationale = fixpoint_rationale;
    db_d1_sha256 = digest_value w (artifacts w).d1;
    db_d2_sha256 = digest_value w (artifacts w).d2;
    db_d3_sha256 = digest_value w (artifacts w).d3;
    db_identical = db_identical (digest_value w) (artifacts w) steps;
    db_nondegenerate = db_nondegenerate steps;
    db_oracle = db_oracle;
    db_oracle_scope = db_oracle_scope;
    oracle_states = oracle_states;
    failed_oracles = map oracle_text (failed_oracles (digest_value w) (artifacts w) steps);
  }

  refusal : List StepRecord → Refusal
  unfolding guard_steps
  refusal steps = record {
    hook = refusal_hook;
    wired_as = wired_as;
    cases = guard_steps steps;
    limit = refusal_limit;
  }

  unfoldable pub files : Dict String String → Dict String String → Files
  unfolding basename t0 final_manifest provenance
  files before after = record {
    provenance_basis =
        "Derived from the tree manifests, not from a listing of the finished tree: "
        <> (basename (t0 w)
            <> (" (before any generator ran) vs "
                <> (basename (final_manifest w)
                    <> " (after the last run). The three lists are disjoint by construction.")));
    provenance = provenance before after;
  }

  -- `conformance.get("conformant")`, if it is a Boolean.
  verdict : Option Json → Option Bool
  verdict (some (boolean b)) = some b
  verdict _ = none

  verdict_of : Option (Dict String Json) → Option (Option Bool)
  unfolding verdict lookup
  verdict_of none = none
  verdict_of (some doc) = some (verdict (lookup "conformant" doc))

  unfoldable pub evidence : Dict String OcelCount → Option (Dict String Json) → Evidence
  unfolding verdict_of keys
  evidence docs conformance = record { ocel_docs = keys docs; conformance = verdict_of conformance }

  -- `receipt`, from what was read on. No artifact is a directory here, so that `digest` returned the
  -- digests that the oracles compare.
  unfoldable pub report_of : Readings → Report
  unfolding subject toolchain capability_matrix failures idempotency refusal files standing
      digest_value artifacts evidence
  report_of i = record {
    schema = schema;
    subject = subject;
    ontology = i.ontology;
    toolchain = toolchain i.lock;
    capability_matrix = capability_matrix i.ttl;
    commands = i.steps;
    failures = failures i.steps;
    database_isolation = record {
      database = i.db_name;
      evidence = i.db_evidence;
      note = isolation_note;
    };
    idempotency = idempotency i.steps;
    ocel = i.docs;
    conformance = i.conformance;
    drift_check = i.drift;
    agent_handwrite_refusal = refusal i.steps;
    files = files i.before i.after;
    replay = replay;
    standing = standing (digest_value w) (artifacts w) i.steps (evidence i.docs i.conformance);
    scope = scope;
  }

  -- What is printed, and the exit code.
  unfoldable pub main : Result (Report × ℕ)
  unfolding read_inputs report_of exit_code
  main = do i ← (read_inputs w); ok (report_of i, exit_code i.steps)
