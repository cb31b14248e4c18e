-- ===== src/Lane/Pin/Document/Order.antt =====
-- The work order, the identity and the authority.
use Prim.Native.String.{◌++◌ as ◌<>◌}
use ggen_igniter.Base.{[], ◌∷◌, string_eq}
use ggen_igniter.Ocel.{pos}
use ggen_igniter.Json.{Json, number, text, array_of, object_of}
use ggen_igniter.Lane.Pin.Records.{lane, wt, gate_cmd, base, test_file}
use ggen_igniter.Lane.Pin.Stated.{Facts}

module _ (f : Facts) where
  unfoldable pub work_order : Json
  unfolding object_of array_of gate_cmd
  work_order = object_of (
      ("id", text lane)
      ∷ ("wave", text "R1a (wf_7a7c7064-905, lanes/wave-R1a.json)")
      ∷ ("goal_ttl_order", text "none (release defect repair lane; no goal.ttl WorkOrder)")
      ∷ (
        "defect",
        text
            "Required_23 (GC23-11 exact-head qualification): the release qualification of ggen_igniter passed only under the ambient Elixir 1.19.5 / OTP 28.3.1, not under the repo's .tool-versions pin (elixir 1.18.4-otp-27, erlang 27.2.4) that CI uses",
      )
      ∷ (
        "defect_evidence",
        text
            "/Users/sac/wt/v26922/v26923/receipts/fleet/ggen_igniter-3937a4f89ecf2b7fa12068406377c05ec1a1b8fc.json toolchain (Elixir 1.19.5, OTP 28.3.1); /Users/sac/wt/v26922/v26923/receipts/fleet/xaas-e999e62b63c680517b9a562cef877d8b09b0cfdd.json (F3/F4 = pinned-formatter drift in bootstrap.ex, repaired by R1-GI-FMT 8b9dcfb, merged 3ed6a7a)",
      )
      ∷ (
        "failure_classification",
        text
            "round 0: no failure under the pin at the base: the pinned full gate exits 0 at 3ed6a7a; the only pin-visible defect (F3/F4, subject defect) was already repaired by R1-GI-FMT. round 1: evidence defect (acceptance design) -- the lane's only consequence was receipt evidence that no gate read, so the court's revert mutation left the gate green (admission_vacuous); repaired by a test that makes the suite consume the evidence and the pin",
      )
      ∷ (
        "repair_round",
        object_of (
            ("round", number (pos 1))
            ∷ (
              "court_verdicts",
              array_of (
                  object_of (
                    ("lens", text "GATE")
                    ∷ ("verdict", text "pass")
                    ∷ (
                      "answer",
                      text "kept; the gate is re-run on the new subject (replay.commands[0])",
                    )
                    ∷ [])
                  ∷ object_of (
                      ("lens", text "REVERT-MUTATION")
                      ∷ ("verdict", text "refuted")
                      ∷ ("broken_term", text "admission_vacuous")
                      ∷ (
                        "answer",
                        text (
                            "accepted as correct; "
                            <> (test_file
                                <> " makes the gate read the pinned-qualification receipt (R-schema admission via Bootstrap.Receipts.check/1, ALIVE, toolchain = .tool-versions pin, cited logs committed with matching sha256, zero-failure lane-gate log on the pinned VM) and the pin itself (running VM = .tool-versions, CI setup-beam = .tool-versions); the lens's own mutation now fails the acceptance (falsifiers[1])")),
                      )
                      ∷ [])
                  ∷ []),
            )
            ∷ []),
      )
      ∷ (
        "contract_refs",
        array_of (
            text "PRD section 12 GC23-11 (Bounded Fleet: exact-subject standing)"
            ∷ text "PRD PR-013 (Replay)"
            ∷ text "PRD PR-017 (Stop calculus)"
            ∷ text "ARD section 20 (Failure Semantics: BUILD_BROKEN(toolchain))"
            ∷ text "ARD section 25 (Verification Ladder: multi-repo exact-head qualification)"
            ∷ text "ARD section 27 (Release Receipt: toolchain identity)"
            ∷ text
                "DRIVER.md release closure procedure (frozen subjects; only the named defect may change)"
            ∷ []),
      )
      ∷ ("acceptance", text ("lane gate: " <> gate_cmd))
      ∷ [])

  unfoldable pub identity : Json
  unfolding object_of
  identity = object_of (
      ("subject", text lane)
      ∷ ("repo", text "/Users/sac/ggen_igniter (origin seanchatmangpt/ggen_igniter)")
      ∷ ("worktree", text wt)
      ∷ ("branch", text ("v23/" <> lane))
      ∷ ("base_ref", text "friday/gc-fri-0800")
      ∷ ("subject_sha", text f.subject)
      ∷ ("base_sha", text base)
      ∷ (
        "base_sha_note",
        text (
            "merge-base(v23/R1-GI-PIN, friday/gc-fri-0800) = 3ed6a7a = friday/gc-fri-0800 head after R1-GI-FMT merged (= ggen_igniter-int HEAD at lane start). Product diff base..subject: "
            <> (test_file
                <> (" (added) and one HANDWRITTEN.md row; no lib/, priv/, config/, native/, mix.exs or mix.lock change; everything else is receipts/v26.9.23/"
                    <> (lane <> "*")))),
      )
      ∷ (
        "subject_tree_clean",
        text
            "git status --porcelain empty before the lane gate and after restoring the one test-written report (observations[0])",
      )
      ∷ ("lane_head_gate", text f.subject)
      ∷ [])

  unfoldable pub authority : Json
  unfolding object_of
  authority = object_of (
      ("ceiling", text "CONSTRUCT")
      ∷ (
        "grant",
        text
            "NONE beyond DRIVER.md authority (operator release sequence, release defect repair lane R1-GI-PIN): lane worktree + own scratch only; no push, no PR, no merge into ggen_igniter-int",
      )
      ∷ (
        "actor",
        text "claude-opus-5-5 workflow subagent, lane R1-GI-PIN (wave R1a, repair round 1)",
      )
      ∷ [])
