-- ===== src/Lane/Pin/Document/Outcome.antt =====
-- The consequence and the replay.
use Prim.Native.String.{◌++◌ as ◌<>◌}
use ggen_igniter.Base.{[], ◌∷◌, map, string_eq}
use ggen_igniter.Base.Text.{take_chars, after_last}
use ggen_igniter.Json.{Json, text, array_of, object_of, texts_of}
use ggen_igniter.Lane.Log.{line}
use ggen_igniter.Lane.Pin.Records.{lane, logs, wt, scratch, test_file}
use ggen_igniter.Lane.Pin.Commands.{commands_of}
use ggen_igniter.Lane.Pin.Stated.{Facts, ident_path, diff_path, otp_pattern, command_json}

module _ (f : Facts) where
  unfoldable pub consequence : Json
  unfolding object_of array_of texts_of take_chars line after_last ident_path diff_path otp_pattern
  consequence = object_of (
      ("commits", texts_of f.lane_commits)
      ∷ ("files_changed", texts_of f.files)
      ∷ (
        "generated_vs_handwritten",
        text (
            test_file
            <> " is hand-written residue with a HANDWRITTEN.md row (UNSUPPORTED(generator-capability): no pack models the toolchain pin as one fact; .tool-versions, ci.yml setup-beam and its cache keys are three hand-kept copies; successor release-qualification pack, v23:GC-26.9.24); the receipt JSON is emitted by build_receipt.py from the step logs"),
      )
      ∷ ("remote_effects", array_of ([]))
      ∷ (
        "local_effects",
        array_of (
            text (
              wt
              <> "/deps: APFS clone (cp -cR) of /Users/sac/wt/v26922/fri/ggen_igniter-int/deps (mix.lock cmp-identical)")
            ∷ text (
                wt
                <> "/native/ggen_graph_nif/target: APFS clone of ggen_igniter-int's cargo target; ggen_graph_nif rebuilt by Rustler under the pin on every forced compile")
            ∷ text (
                wt
                <> ("/_build/dev and _build/test: fresh, compiled under the pin ("
                    <> (line f.ident_text otp_pattern
                        <> ("; " <> (after_last b'/' (ident_path f.subject) <> ")")))))
            ∷ text (
                "scratch "
                <> (scratch
                    <> ("/wit: detached worktree at "
                        <> (take_chars 7 f.subject
                            <> " (deps, _build/test, cargo target APFS-cloned from the lane; _build_amb/test APFS-cloned from /Users/sac/wt/v26922/v23/V23-B, read only there) for the five witnesses; every mutation restored with git checkout HEAD -- <path>, then the worktree was removed"))))
            ∷ text (
                "receipts/v26.9.22/kernel-differential.json rewritten by the lane-gate test run, captured to "
                <> (after_last b'/' (diff_path f.subject) <> ", then git restore"))
            ∷ []),
      )
      ∷ [])

  unfoldable pub replay : Json
  unfolding object_of array_of commands_of command_json
  replay = object_of (
      ("durable_location", text (logs <> (" (tracked in git on branch v23/" <> (lane <> ")"))))
      ∷ (
        "step_runner",
        text (
            logs
            <> ("/step.sh (sets the pin PATH, records cwd/head/timestamps/exit into each log); "
                <> (logs <> "/ambient_step.sh (same format, ambient toolchain, witness 24 only)"))),
      )
      ∷ ("builder", text (logs <> "/build_receipt.py"))
      ∷ ("build_identity", text (logs <> "/build_identity.exs"))
      ∷ ("commands", array_of (map command_json (commands_of f.subject f.evidence)))
      ∷ [])
