-- ===== src/Lane/Pin/Commands.antt =====
-- The commands and the falsifiers of the receipt, with what their summaries quote of the logs.
use Prim.Native.String.{◌++◌ as ◌<>◌}
use ggen_igniter.Base.{String, Option, none, some, List, [], ◌∷◌}
use ggen_igniter.Base.Text.{take_chars, join}
use ggen_igniter.Regex.{Regex, one, ◌▸◌}
use ggen_igniter.Regex.Syntax.{
  literal, some_of, many, maybe, times, digit_char, line_char, line_start, line_end, is_any_of,
}
use ggen_igniter.Lane.Log.{Log, line, failing}
use ggen_igniter.Lane.Pin.Records.{
  lane, pin, gate_cmd, base, pre_fix, round0_gate_head, test_file, test_cmd, Command, Evidence,
}

-- TOTAL_RE: r"^\d+ doctests?, \d+ properties, \d+ tests?, .*$"
unfoldable pub total_pattern : Regex
unfolding literal line_start line_end
total_pattern =
    line_start
    ▸ some_of (one digit_char)
    ▸ literal " doctest"
    ▸ maybe (literal "s")
    ▸ literal ", "
    ▸ some_of (one digit_char)
    ▸ literal " properties, "
    ▸ some_of (one digit_char)
    ▸ literal " test"
    ▸ maybe (literal "s")
    ▸ literal ", "
    ▸ many (one line_char)
    ▸ line_end

-- r"^Finished in .*$"
unfoldable pub finished_pattern : Regex
unfolding literal line_start line_end
finished_pattern = line_start ▸ literal "Finished in " ▸ many (one line_char) ▸ line_end

-- r".*mods/funs.*$"
unfoldable pub credo_pattern : Regex
unfolding literal line_end
credo_pattern = many (one line_char) ▸ literal "mods/funs" ▸ many (one line_char) ▸ line_end

-- r'^Elixir .*$'
elixir_pattern : Regex
unfolding literal line_start line_end
elixir_pattern = line_start ▸ literal "Elixir " ▸ many (one line_char) ▸ line_end

-- r'^\d+ tests?, .*$'
tests_pattern : Regex
unfolding literal line_start line_end
tests_pattern =
    line_start
    ▸ some_of (one digit_char)
    ▸ literal " test"
    ▸ maybe (literal "s")
    ▸ literal ", "
    ▸ many (one line_char)
    ▸ line_end

-- r"^Compiling crate .*$"
crate_pattern : Regex
unfolding literal line_start line_end
crate_pattern = line_start ▸ literal "Compiling crate " ▸ many (one line_char) ▸ line_end

-- r"cited log .* does not hash to [0-9a-f]{64}"
cited_pattern : Regex
unfolding literal is_any_of
cited_pattern =
    literal "cited log "
    ▸ many (one line_char)
    ▸ literal " does not hash to "
    ▸ times 64 (one (is_any_of "0123456789abcdef"))

-- r"BUILD_BROKEN\(toolchain\): .*$"
broken_pattern : Regex
unfolding literal line_end
broken_pattern = literal "BUILD_BROKEN(toolchain): " ▸ many (one line_char) ▸ line_end

-- `cmd(entry, command, summary, **extra)`
abbrev pub cmd : Log → String → String → Option String → Option String → Command
cmd entry command summary role verdict = record {
  entry = entry;
  command = command;
  summary = summary;
  role = role;
  verdict = verdict;
}

module _ (subject : String) (e : Evidence) where
  -- `commands`
  unfoldable pub commands_of : List Command
  unfolding pin gate_cmd test_cmd take_chars line total_pattern finished_pattern credo_pattern
      elixir_pattern tests_pattern crate_pattern
  commands_of =
      cmd e.gate gate_cmd
        ("LANE GATE (literal) on the committed lane head "
          <> (subject
              <> (" (= base "
                  <> (take_chars 7 base
                      <> (" + "
                          <> (test_file
                              <> (" + HANDWRITTEN.md row + receipts/v26.9.23/"
                                  <> (lane
                                      <> ("*): "
                                          <> (line e.gate.text elixir_pattern
                                              <> ("; format, forced compile, credo ("
                                                  <> (line e.gate.text credo_pattern
                                                      <> ("), "
                                                          <> (line e.gate.text finished_pattern
                                                            <> ("; "
                                                            <> (line e.gate.text
                                                            total_pattern))))))))))))))))
        (some "lane gate on committed head") none
      ∷ cmd e.w_base test_cmd
          ("WITNESS baseline: the new toolchain-pin qualification test passes on the unmutated subject under the pin (scratch detached worktree, _build/test APFS-cloned from the lane): "
            <> (line e.w_base.text tests_pattern))
          (some "witness: baseline") none
      ∷ cmd e.gate0 gate_cmd
          ("round 0 LANE GATE (literal) on lane head "
            <> (round0_gate_head
                <> (" (= "
                    <> (take_chars 7 base
                        <> (" + receipts only): Elixir 1.18.4 (OTP 27); "
                            <> (line e.gate0.text finished_pattern
                                <> ("; " <> (line e.gate0.text total_pattern))))))))
          (some "prior lane gate (round 0)") none
      ∷ cmd e.fmt (pin <> " sh -c 'elixir --version && mix format --check-formatted'")
          ("round 0 step 1/4 of the lane gate at the base "
            <> (take_chars 7 base
                <> ": Elixir 1.18.4 (compiled with Erlang/OTP 27); format check exit 0"))
          none none
      ∷ cmd e.dep_dev (pin <> " mix deps.compile")
          "round 0: fresh _build/dev (no _build existed in the worktree; deps/ source APFS-cloned from ggen_igniter-int, mix.lock cmp-identical): all deps compiled under the pin"
          none none
      ∷ cmd e.comp (pin <> " mix compile --warnings-as-errors --force")
          ("round 0 step 2/4: "
            <> (line e.comp.text crate_pattern <> "; Generated ggen_igniter app; no warnings"))
          none none
      ∷ cmd e.credo (pin <> " mix credo")
          ("round 0 step 3/4: " <> (line e.credo.text credo_pattern)) none none
      ∷ cmd e.dep_test (pin <> " MIX_ENV=test mix deps.compile")
          "round 0: fresh _build/test deps compiled under the pin (separate command to keep each < 20 min)"
          none none
      ∷ cmd e.comp_test (pin <> " MIX_ENV=test mix compile --warnings-as-errors")
          "round 0: test-env project compile under the pin (NIF copied from the rebuilt crate); Generated ggen_igniter app"
          none none
      ∷ cmd e.test (pin <> " mix test")
          ("round 0 step 4/4 FULL SUITE under the pin at the base: "
            <> (line e.test.text finished_pattern <> ("; " <> (line e.test.text total_pattern))))
          none none
      ∷ []

  -- `witness_falsifiers`
  unfoldable pub witness_falsifiers : List Command
  unfolding pin test_cmd take_chars line failing join elixir_pattern tests_pattern cited_pattern
      broken_pattern
  witness_falsifiers =
      cmd e.w_revert test_cmd
        ("ANTI-VACUITY (court lens REVERT-MUTATION, repeated): every non-test file the lane changed since "
          <> (take_chars 7 base
              <> (" reverted in a scratch worktree (git rm of the 15 added receipts/v26.9.23/"
                  <> (lane
                      <> ("* files, git checkout 3ed6a7a -- HANDWRITTEN.md; mutated tree = base + the test file only), then the test under the pin: "
                          <> (line e.w_revert.text tests_pattern
                              <> (" -- " <> (join "; " (failing e.w_revert)))))))))
        (some "anti-vacuity: revert-mutation killed") (some "killed")
      ∷ cmd e.w_tamper test_cmd
          ("FALSIFIER: one byte appended to the cited log 04-test-3ed6a7a.log (scratch): "
            <> (line e.w_tamper.text tests_pattern
                <> (" -- " <> (line e.w_tamper.text cited_pattern))))
          (some "falsifier: log tamper killed") (some "killed")
      ∷ cmd e.w_bump test_cmd
          ("FALSIFIER: .tool-versions bumped to elixir 1.18.5-otp-27 without a new pinned qualification (scratch): "
            <> (line e.w_bump.text tests_pattern <> (" -- " <> (join "; " (failing e.w_bump)))))
          (some "falsifier: pin bump killed") (some "killed")
      ∷ cmd e.w_amb
          ("MIX_ENV=test MIX_BUILD_ROOT=_build_amb sh -c 'elixir --version && mix test "
            <> (test_file
                <> "' (AMBIENT toolchain, no pin PATH; _build_amb/test APFS-cloned from an OTP-28 build with the same mix.lock)"))
          ("FALSIFIER: the ambient toolchain that admitted the frozen subject in the release qualification ("
            <> (line e.w_amb.text elixir_pattern
                <> ("): "
                    <> (line e.w_amb.text tests_pattern
                        <> (" -- " <> (line e.w_amb.text broken_pattern))))))
          (some "falsifier: ambient toolchain killed") (some "killed")
      ∷ []

  unfoldable pub falsifiers_of : List Command
  unfolding witness_falsifiers pin
  falsifiers_of =
      cmd e.fals (pin <> " sh -c 'elixir --version && mix format --check-formatted'")
        ("ANTI-VACUITY (round 0): the same pinned gate step 1 at the pre-repair frozen subject "
          <> (pre_fix
              <> " (detached scratch worktree, deps APFS-cloned) exits 1: lib/ggen_igniter/semantic_jira/bootstrap.ex not formatted under 1.18.4 -- the pinned gate refuses the subject the ambient qualification admitted"))
        (some "anti-vacuity: killed") (some "killed")
      ∷ witness_falsifiers
