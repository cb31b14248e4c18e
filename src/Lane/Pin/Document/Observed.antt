-- ===== src/Lane/Pin/Document/Observed.antt =====
-- The observations, the toolchain and the findings.
use Prim.Native.String.{◌++◌ as ◌<>◌}
use ggen_igniter.Base.{[], ◌∷◌, true, if◌then◌else◌, ◌==◌, string_eq}
use ggen_igniter.Json.{Json, boolean, text, array_of, object_of}
use ggen_igniter.Lane.Log.{line}
use ggen_igniter.Lane.Pin.Records.{test_file}
use ggen_igniter.Lane.Pin.Commands.{total_pattern, finished_pattern}
use ggen_igniter.Lane.Pin.Stated.{Facts, ident_path, diff_path, ident0_path, diff0_path}

module _ (f : Facts) where
  unfoldable pub observations : Json
  unfolding object_of array_of line diff_path diff0_path total_pattern finished_pattern
  observations = array_of (
      object_of (
        ("kind", text "test_writes_tracked_file")
        ∷ ("classification", text "pre-existing (successor; not fixed here per the lane task)")
        ∷ ("path", text "receipts/v26.9.22/kernel-differential.json")
        ∷ (
          "writer",
          text
              "test/ggen_igniter_semantic_jira_kernel_differential_test.exs (@report_path, File.write!)",
        )
        ∷ (
          "finding",
          text
              "each pinned full-suite run rewrites only sha256 fields (shapes_sha256 / pack_ontology sha256) and slice_count 200 -> 290, the same class the ambient release qualification observed; restored with git restore after every run",
        )
        ∷ (
          "evidence",
          text (diff0_path <> (" (round 0), " <> (diff_path f.subject <> " (round 1 lane gate)"))),
        )
        ∷ ("diff_sha256", text f.diff0_sha)
        ∷ ("lane_gate_diff_sha256", text f.diff_sha)
        ∷ (
          "lane_gate_run",
          text (
              (if f.diff_sha == f.diff0_sha
                then "the round-1 lane gate's git diff is byte-identical to the round-0 diff (same sha256)"
                else "the round-1 lane gate's git diff differs from the round-0 diff (see both files)")),
        )
        ∷ ("standing_effect", text "none")
        ∷ [])
      ∷ object_of (
          ("kind", text "test_count_reconciliation")
          ∷ (
            "finding",
            text (
                "round 1 lane gate '"
                <> (line f.evidence.gate.text total_pattern
                    <> ("' vs round 0 '"
                        <> (line f.evidence.gate0.text total_pattern
                            <> ("': the difference is the 6 tests of "
                                <> (test_file
                                    <> ". Pinned ExUnit 1.18.4 counts excluded tests in the total; ambient ExUnit 1.19.5 reported '20 doctests, 42 properties, 1340 tests, 0 failures, 1 skipped (9 excluded)' at 3937a4f (1349 - 9 = 1340), same suite")))))),
          )
          ∷ ("standing_effect", text "none")
          ∷ [])
      ∷ object_of (
          ("kind", text "test_stderr_noise")
          ∷ ("classification", text "pre-existing")
          ∷ (
            "finding",
            text
                "'fatal: unable to read tree (17e2923d...)' lines from a git subprocess inside a test, ExUnit runner stack lines and expected [warning] lines from failure-injection tests; no test failed",
          )
          ∷ ("standing_effect", text "none")
          ∷ [])
      ∷ object_of (
          ("kind", text "host_contention")
          ∷ ("classification", text "environment")
          ∷ (
            "finding",
            text (
                "mix test wall time: "
                <> (line f.evidence.gate.text finished_pattern
                    <> (" (round 1), "
                        <> (line f.evidence.gate0.text finished_pattern
                            <> " (round 0) under concurrent lanes; run as a background command to a log, never a blocking > 20 min call")))),
          )
          ∷ ("standing_effect", text "none")
          ∷ [])
      ∷ [])

  unfoldable pub toolchain : Json
  unfolding object_of ident_path ident0_path
  toolchain = object_of (
      ("pin_source", text ".tool-versions: elixir 1.18.4-otp-27, erlang 27.2.4")
      ∷ ("elixir", text "Elixir 1.18.4 (compiled with Erlang/OTP 27)")
      ∷ ("elixir_bin", text "/Users/sac/.asdf/installs/elixir/1.18.4-otp-27/bin/elixir")
      ∷ ("erl_bin", text "/Users/sac/.asdf/installs/erlang/27.2.4/bin/erl")
      ∷ ("otp_release", text "27")
      ∷ ("otp_version", text "27.2.4")
      ∷ ("erts", text "15.2.2")
      ∷ ("compiler_app", text "8.5.5")
      ∷ ("build_identity_log", text (ident_path f.subject))
      ∷ ("build_identity_sha256", text f.ident_sha)
      ∷ ("build_identity_round0_log", text ident0_path)
      ∷ ("build_identity_round0_sha256", text f.ident0_sha)
      ∷ ("rustc", text "rustc 1.97.0 (2d8144b78 2026-07-07)")
      ∷ ("cargo", text "cargo 1.97.0 (c980f4866 2026-06-30)")
      ∷ (
        "nif_note",
        text
            "ggen_graph_nif: rustler 0.36.2 selects the NIF API by cargo feature (rustler build.rs CARGO_FEATURE_NIF_VERSION_*), not by the running ERTS; rebuilt under the pin anyway. wasmex 0.15.1 precompiled NIF nif-2.15 from the rustler_precompiled cache (OTP-independent)",
      )
      ∷ ("tool_versions_pin_used", boolean true)
      ∷ ("mix_lock_sha256", text f.lock_sha)
      ∷ [])

  unfoldable pub findings : Json
  unfolding object_of array_of
  findings = array_of (
      object_of (
        ("id", text "R1-GI-PIN-1")
        ∷ (
          "statement",
          text
              "ggen_igniter friday/gc-fri-0800 at 3ed6a7a passes the full CI gate under its .tool-versions pin with a fresh OTP-27 _build",
        )
        ∷ ("classification", text "none needed (no failure)")
        ∷ (
          "consequence_for_GC23-11",
          text
              "ggen_igniter exact-subject standing under the CI toolchain is observed, not inferred from the ambient toolchain",
        )
        ∷ [])
      ∷ object_of (
          ("id", text "R1-GI-PIN-2")
          ∷ (
            "statement",
            text (
                "the suite now consumes the pinned qualification: "
                <> (test_file
                    <> " fails when the receipt or a cited log is removed or edited, when .tool-versions moves without a new pinned qualification, and when the suite runs under a toolchain other than the pin (BUILD_BROKEN(toolchain))")),
          )
          ∷ (
            "classification",
            text "evidence defect repaired (court REVERT-MUTATION, admission_vacuous)",
          )
          ∷ (
            "consequence_for_GC23-11",
            text
                "a green full suite of ggen_igniter is a pinned run; an ambient qualification can no longer pass",
          )
          ∷ [])
      ∷ [])
