-- ===== src/Lane/Probe/Document.antt =====
-- The document of the receipt, by its keys.
pub mod Laws
use Prim.Native.String.{◌++◌ as ◌<>◌}
use ggen_igniter.Base.{
  ℕ, String, Option, none, some, List, [], ◌∷◌, ◌++◌, Bool, true, false, map, if◌then◌else◌, ◌==◌,
  number_eq,
}
use ggen_igniter.Base.Sort.{sort, str_le}
use ggen_igniter.Base.Text.Decimal.{decimal}
use ggen_igniter.Json.{Json, text, array_of, object_of, texts_of}
use ggen_igniter.Lane.Probe.Entries.{lane, gate_dir, pin, base, subj, head_gate, gate}

-- What the document states besides the constants.
pub record Facts : Type 0 where
  pub wt : String
  pub gate_sha : String
  pub full_exit : ℕ
  pub listing : List String
  pub commands : List Json
  pub falsifiers : List Json
  pub hosted_ci : Json
  pub hosted_ci_history : List Json
  -- the number of each run, with its head and its conclusion
  pub hosted_runs : List (String × Option String × Option String)
  pub hosted_ok : Bool

shown_text : Option String → String
shown_text none = "None"
shown_text (some s) = s

-- A line of `remote_effects`.
run_line : String × Option String × Option String → String
unfolding shown_text
run_line (run_id, head_sha, conclusion) =
    "hosted CI run "
    <> (run_id
        <> (" (ggen_igniter CI, push event) on "
            <> (shown_text head_sha <> (": " <> shown_text conclusion))))

module _ (f : Facts) where
  work_order : Json
  unfolding object_of array_of
  work_order = object_of (
      ("id", text lane)
      ∷ (
        "wave",
        text
            "R2g (R2 pre-freeze CI repair); continued in F1g (after the 2026-09-23 usage-limit halt)",
      )
      ∷ (
        "goal_ttl_order",
        text "none (release defect repair lane; no goal.ttl WorkOrder; receipt not tuple-linked)",
      )
      ∷ ("defect_key", text "ggen_igniter-test-orphan-dev-beam")
      ∷ (
        "defect",
        text
            "CI 35925710605 @aa07ee7 (seed 648358): 1349 tests, 1 failure -- test/ggen_igniter_plan_task_test.exs:91 '--help / -h byte-identical' got output starting with 'Generated ggen_igniter app'",
      )
      ∷ (
        "cause",
        text
            "test/ggen_igniter_base_mix_task_end_user_test.exs writes lib/tmp_ex4pm_probe_N/application.ex into the shared checkout and runs a dev-env child that compiles it into _build/dev/lib/ggen_igniter/ebin; on_exit removed only the source, so the next dev-env mix child purges the orphan beam and Mix compile.app prints 'Generated ggen_igniter app' into that child's stdout. Latent since 4aa5f36.",
      )
      ∷ (
        "failure_classification",
        text "subject defect (test isolation; hand-authored test, not generator-owned)",
      )
      ∷ (
        "source",
        text
            "swarm wf_2755fdff-28e (swarm-only defect); candidate lanes/r2/candidates/r2-gi-probe-isolation.patch",
      )
      ∷ (
        "contract_refs",
        array_of (
            text
              "PRD section 13 (Release Stop Condition: green exact-head qualification of the frozen subject)"
            ∷ text "ARD section 25 (Verification Ladder: multi-repo exact-head qualification)"
            ∷ text "ARD section 20 (Failure Semantics: classify before repair)"
            ∷ text "PRD PR-013 (Replay: seed-independent reconstruction of standing)"
            ∷ text
                "DRIVER.md release closure procedure (R2 pre-freeze CI repair; tests only, no product lib/ code)"
            ∷ []),
      )
      ∷ ("acceptance", text gate)
      ∷ (
        "falsifier",
        text
            "any exact-stdout dev-env child test (plan --help/-h, the --json single-document tests, doctor --json) fails with leading Mix compile chatter at the lane head under any seed, or `git status --porcelain -- lib` is non-empty after the suite",
      )
      ∷ (
        "candidates",
        object_of (
            (
              "retained",
              text
                  "on_exit re-sync of the shared dev build (`{_out, 0} = System.cmd(\"mix\", [\"compile\"], cd: repo_root, stderr_to_stdout: true)`) -- fixes the source of the staleness, assertions unchanged",
            )
            ∷ (
              "preserved_unbuilt",
              text
                  "run the probe in a temp Mix project with path/symlink-shared deps so lib/ and _build/dev are never touched (non-dominated: stronger isolation, larger diff; successor option, not built)",
            )
            ∷ (
              "rejected",
              text
                  "weakening the byte-identity or single-JSON-document assertions (victims, not the source)",
            )
            ∷ []),
      )
      ∷ [])

  identity : Json
  unfolding object_of
  identity = object_of (
      ("subject", text lane)
      ∷ ("repo", text "/Users/sac/ggen_igniter (origin seanchatmangpt/ggen_igniter)")
      ∷ ("worktree", text f.wt)
      ∷ ("branch", text "v23/R2-GI-PROBE-ISOLATION")
      ∷ ("base_ref", text "friday/gc-fri-0800")
      ∷ ("subject_sha", text head_gate)
      ∷ ("product_commit", text subj)
      ∷ (
        "subject_sha_note",
        text
            "subject_sha = the committed lane head the F1g continuation gate ran on (6c335f0); the product commit 0fd8095 (the only test/ change) is its parent; 0fd8095..6c335f0 adds only this lane's receipt JSON, its gate dir and one HANDWRITTEN.md ledger row. The receipt commit that carries this file is a child of 6c335f0 touching only this lane's receipt paths (a commit cannot contain its own hash).",
      )
      ∷ ("base_sha", text base)
      ∷ (
        "base_sha_note",
        text
            "merge-base(v23/R2-GI-PROBE-ISOLATION, friday/gc-fri-0800) = d6a6e5b (= ggen_igniter-int HEAD at lane start and still at the F1g continuation; origin/friday/gc-fri-0800 = d6a6e5b after git fetch --no-prune). Product diff base..subject: test/ggen_igniter_base_mix_task_end_user_test.exs +13/-1 only; no lib/, priv/, config/, native/, mix.exs, mix.lock, CI or goal.ttl change",
      )
      ∷ (
        "toolchain",
        text
            "Elixir 1.18.4 (compiled with Erlang/OTP 27), erlang 27.2.4 (.tool-versions pin; /Users/sac/.asdf/installs/elixir/1.18.4-otp-27, /Users/sac/.asdf/installs/erlang/27.2.4); fresh _build/dev and _build/test compiled under the pin",
      )
      ∷ [])

  authority : Json
  unfolding object_of
  authority = object_of (
      ("ceiling", text "CONSTRUCT")
      ∷ (
        "grant",
        text
            "DRIVER.md release closure procedure, wave R2 (lane R2-GI-PROBE-ISOLATION): lane worktree + own scratch; push of the lane branch (no force, no PR); no merge into ggen_igniter-int",
      )
      ∷ (
        "actor",
        text
            "claude-opus-5-5 workflow subagent, lane R2-GI-PROBE-ISOLATION (wave R2g; F1g continuation)",
      )
      ∷ [])

  consequence : Json
  unfolding object_of array_of texts_of sort str_le run_line
  consequence = object_of (
      ("commits", array_of (text subj ∷ text head_gate ∷ []))
      ∷ (
        "files_changed",
        texts_of (
            ("test/ggen_igniter_base_mix_task_end_user_test.exs")
            ∷ ("HANDWRITTEN.md")
            ∷ ("receipts/v26.9.23/" <> (lane <> ".json"))
            ∷ (sort str_le (map (λ name. gate_dir <> ("/" <> name)) f.listing))),
      )
      ∷ (
        "generated_vs_handwritten",
        text (
            "hand-written residue (not generator-owned: no admitted generator manufactures ExUnit subprocess-test lifecycles); ledger row appended to HANDWRITTEN.md in the receipt commit (UNSUPPORTED(generator-capability), paydown = the preserved temp-Mix-project alternative or a test-harness generator); no test or court reads HANDWRITTEN.md (grep over test/ lib/ priv/ggen), so the subject's gate verdict is unchanged by it; the receipt JSON is emitted by "
            <> (gate_dir <> "/build_receipt.py")),
      )
      ∷ (
        "remote_effects",
        texts_of (
            ("origin refs/heads/v23/R2-GI-PROBE-ISOLATION created at " <> (subj <> " (no force)"))
            ∷ (map run_line f.hosted_runs
                ++ (("origin refs/heads/v23/R2-GI-PROBE-ISOLATION advanced 0fd8095 -> "
                      <> (head_gate <> " (no force, prior session)"))
                    ∷ ("F1g: origin refs/heads/v23/R2-GI-PROBE-ISOLATION fast-forwarded to the receipt commit that carries this file (child of "
                        <> (head_gate
                            <> "; no force, no PR); its push run is owed a hosted verdict only after R2-GI-CI's job budget merges"))
                    ∷ []))),
      )
      ∷ (
        "local_effects",
        array_of (
            text (
              f.wt
              <> "/deps: APFS clone of /Users/sac/wt/v26922/fri/ggen_igniter-int/deps (mix.lock cmp-identical)")
            ∷ text (
                f.wt
                <> "/native/ggen_graph_nif/target: APFS clone of ggen_igniter-int's cargo target; crate rebuilt under the pin")
            ∷ text (f.wt <> "/_build/dev and _build/test: fresh, under the pin")
            ∷ text
                "mutant M1 and the revert-mutation state witness edited the test file in the working tree only; each was restored from HEAD (git show HEAD:<path> > <path>), porcelain empty afterwards"
            ∷ text (
                "receipts/v26.9.22/kernel-differential.json rewritten by the full-suite run (pre-existing test behaviour, not this lane's); captured to "
                <> (gate_dir <> "/41-post-suite-tracked.diff, then restored from HEAD"))
            ∷ []),
      )
      ∷ [])

  replay : Json
  unfolding object_of array_of
  replay = object_of (
      (
        "durable_location",
        text (gate_dir <> " (tracked in git on branch v23/R2-GI-PROBE-ISOLATION)"),
      )
      ∷ (
        "gate_script",
        object_of (
            ("path", text (gate_dir <> "/r2-gi-probe-isolation.sh"))
            ∷ ("sha256", text f.gate_sha)
            ∷ ("source", text "/Users/sac/wt/v26922/v26923/lanes/r2/gates/r2-gi-probe-isolation.sh")
            ∷ []),
      )
      ∷ ("builder", text (gate_dir <> "/build_receipt.py"))
      ∷ ("commands", array_of f.commands)
      ∷ [])

  standing_json : Json
  unfolding object_of decimal
  standing_json = object_of (
      ("value", text ((if f.full_exit == 0 then "ALIVE" else "PARTIAL_ALIVE")))
      ∷ (
        "derived_from",
        text (
            "replay.commands[0] (F1g lane gate exit 0 on the committed lane head "
            <> (head_gate
                <> (") and replay.commands[1] (post-gate state at that head: 0 orphan beams, lib clean, only receipt paths + HANDWRITTEN.md since the product commit); replay.commands[2] (lane gate exit 0 on the product commit "
                    <> (subj
                        <> ("), state witnesses replay.commands[3]/[4] (0 orphan beams at head; 1 orphan beam + leading 'Generated ggen_igniter app' under the revert), full suite replay.commands[5] (exit "
                            <> (decimal f.full_exit
                                <> (", seed 648358, at "
                                    <> (subj
                                        <> ("; test/lib/config/priv trees identical at "
                                            <> (head_gate
                                                <> ("); anti-vacuity falsifiers[0] (revert = base d6a6e5b: gate exit 2) and falsifiers[1] (mutant M1: gate exit 2), both killed"
                                                    <> (if f.hosted_ok
                                                        then ""
                                                        else "; hosted CI witness not yet success on the subject (receipt field only)")))))))))))),
      )
      ∷ (if f.full_exit == 0 then [] else ("broken_term", text "mu_on_O") ∷ []))

  -- `receipt`
  unfoldable pub document : Json
  unfolding object_of array_of standing_json work_order identity authority consequence replay
  document = object_of (
      ("work_order", work_order)
      ∷ ("identity", identity)
      ∷ ("authority", authority)
      ∷ ("consequence", consequence)
      ∷ ("replay", replay)
      ∷ ("falsifiers", array_of f.falsifiers)
      ∷ ("hosted_ci", f.hosted_ci)
      ∷ ("hosted_ci_history", array_of f.hosted_ci_history)
      ∷ ("standing", standing_json)
      ∷ [])
