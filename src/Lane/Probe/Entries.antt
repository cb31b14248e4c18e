-- ===== src/Lane/Probe/Entries.antt =====
-- The constants of R2-GI-PROBE-ISOLATION.gate/build_receipt.py, and the entries of its commands.
use Prim.Native.String.{◌++◌ as ◌<>◌}
use ggen_igniter.Base.{ℕ, String, List, [], ◌∷◌}

abbrev pub lane : String
lane = "R2-GI-PROBE-ISOLATION"

abbrev pub gate_dir : String
gate_dir = "receipts/v26.9.23/R2-GI-PROBE-ISOLATION.gate"

abbrev pub pin : String
pin =
    "PATH=/Users/sac/.asdf/installs/elixir/1.18.4-otp-27/bin:/Users/sac/.asdf/installs/erlang/27.2.4/bin:$PATH"

abbrev pub base : String
base = "d6a6e5bd8de1da426ddc26130edfa45bbaf24f61"

abbrev pub subj : String
subj = "0fd8095c96e2ec6fe30a6b62f2b12b1772098b1b"

abbrev pub head_gate : String
head_gate = "6c335f0da3c2a1d9e7d57729b9a667973bf3f1b0"

abbrev pub gate : String
gate = "sh /Users/sac/wt/v26922/v26923/lanes/r2/gates/r2-gi-probe-isolation.sh \"$PWD\""

-- The arguments of `cmd`, with the name of the log below the directory of the gate.
pub record Entry : Type 0 where
  pub command : String
  pub exit : ℕ
  pub summary : String
  pub name : String
  pub role : String

abbrev pub entry : String → ℕ → String → String → String → Entry
entry command exit summary name role = record {
  command = command;
  exit = exit;
  summary = summary;
  name = name;
  role = role;
}

-- `commands`, but for the last, of which there is no log.
unfoldable pub command_logs : String → String → ℕ → String → List Entry
command_logs gate_sha cand_sha full_exit full_summary =
    entry gate 0
      ("F1g CONTINUATION LANE GATE on committed lane head 6c335f0 (gate script sha256 "
        <> (gate_sha
            <> "; friday/gc-fri-0800 = origin/friday/gc-fri-0800 = d6a6e5b = merge-base, so no merge-forward): Elixir 1.18.4 (compiled with Erlang/OTP 27); format ok; credo 1 mods/funs, found no issues; seeds 0/648358/1/2 each '10 tests, 0 failures' (24.4s/24.3s/91.0s/38.6s); lib/ porcelain empty; PROBE_ISOLATION_GATE OK; GATE_EXIT=0"))
      "12-gate-head-6c335f0.log" "lane gate on committed head (F1g continuation)"
    ∷ entry
        (pin
          <> " sh -c 'git merge-base --is-ancestor friday/gc-fri-0800 HEAD; ls _build/dev/lib/ggen_igniter/ebin | grep -c Ex4pm; mix ggen_igniter.plan --help | head -1; git status --porcelain; git diff --name-only 0fd8095 HEAD; grep -rn HANDWRITTEN test lib config mix.exs'")
        0
        "POST-GATE STATE WITNESS at 6c335f0: friday/gc-fri-0800 (d6a6e5b) is an ancestor of HEAD; orphan_ex4pm_beams=0; first stdout line of the next dev-env child is the task's own 'mix ggen_igniter.plan -- read-only admission preview (no filesystem mutation)'; porcelain empty; 0fd8095..HEAD outside this lane's receipt paths = HANDWRITTEN.md only; its only textual mentions under test/ lib/ config/ mix.exs are two titles in test/fixtures/kernel_differential/v26.9.22/orders.json and 0 File reads of HANDWRITTEN.md"
        "32-state-witness-head-6c335f0.log" "witness: state at continuation head"
    ∷ entry gate 0
        ("LANE GATE on committed lane head 0fd8095 (gate script sha256 "
          <> (gate_sha
              <> "): Elixir 1.18.4 (compiled with Erlang/OTP 27); format ok; credo 1 mods/funs, found no issues; seeds 0/648358/1/2 each '10 tests, 0 failures'; lib/ porcelain empty; PROBE_ISOLATION_GATE OK"))
        "11-gate-head-0fd8095.log" "lane gate on committed head"
    ∷ entry
        (pin
          <> " sh -c 'mix test test/ggen_igniter_base_mix_task_end_user_test.exs --seed 0; ls _build/dev/lib/ggen_igniter/ebin | grep -c Ex4pm; mix ggen_igniter.plan --help | head -1; git status --porcelain -- lib'")
        0
        "STATE WITNESS at 0fd8095: probe test '1 test, 0 failures'; orphan_beams=0 in _build/dev/lib/ggen_igniter/ebin; next dev-env child's first stdout line is the task's own 'mix ggen_igniter.plan -- read-only admission preview ...'; lib porcelain empty"
        "30-state-witness-head-0fd8095.log" "witness: state at head"
    ∷ entry
        (pin
          <> " sh -c '<same as above>' with the test file content of d6a6e5b written over HEAD's")
        0
        "STATE WITNESS revert mutation: probe test '1 test, 0 failures' but orphan_beams=1 (Elixir.Ex4pm.Runtime.Application.beam left in _build/dev) and the next dev-env child's first stdout line is 'Generated ggen_igniter app' (the defect mechanism); file restored from HEAD"
        "31-state-witness-revert-mutation.log" "witness: mechanism under revert"
    ∷ entry (pin <> (" mix compile && " <> (pin <> " mix test --seed 648358"))) full_exit
        ("FULL SUITE at lane head 0fd8095 under the pin, CI seed 648358: " <> full_summary)
        "40-full-suite-648358-0fd8095.log" "full suite at lane head (seed of CI 35925710605)"
    ∷ entry (pin <> " mix compile") 0
        "fresh _build/dev under the pin at base d6a6e5b (deps/ APFS-cloned from ggen_igniter-int, mix.lock cmp-identical; cargo target APFS-cloned; ggen_graph_nif rebuilt): Generated ggen_igniter app"
        "00-compile-dev.log" "provisioning"
    ∷ entry (pin <> " MIX_ENV=test mix compile") 0
        "fresh _build/test under the pin at base d6a6e5b: Generated ggen_igniter app"
        "01-compile-test.log" "provisioning"
    ∷ entry
        ("git apply lanes/r2/candidates/r2-gi-probe-isolation.patch (sha256 "
          <> (cand_sha
              <> " verified with shasum -c) && mix format --check-formatted && git commit -F <msg>"))
        0
        "candidate O applied (+13/-1, one file), format check exit 0, committed 0fd8095 under the lane identity"
        "candidate-r2-gi-probe-isolation.patch" "construct"
    ∷ []

unfoldable pub falsifier_logs : List Entry
falsifier_logs =
    entry gate 2
      "WITNESS base (revert of the fix = d6a6e5b, friday/gc-fri-0800): seed 0 '10 tests, 1 failure' -- PlanTaskTest plan --json (test/ggen_igniter_plan_task_test.exs:25) Jason.DecodeError 'unexpected byte at position 0: 0x47 (\"G\")'; gate exits 2 before PROBE_ISOLATION_GATE OK"
      "10-gate-base-d6a6e5b.log" "witness: base fails (revert mutation)"
    ∷ entry gate 2
        ("MUTANT M1 (on_exit re-syncs the WRONG build: env MIX_ENV=test; diff "
          <> (gate_dir
              <> "/20-mutant-M1-wrong-env.diff, mix-formatted so the gate reaches the tests): seed 0 '10 tests, 1 failure', same Jason.DecodeError 0x47 ('G'); killed. Working file restored from HEAD afterwards (git show HEAD:<path> > <path>; porcelain empty)"))
        "21-gate-mutant-M1.log" "witness: mutant killed"
    ∷ []

abbrev pub push_cmd : String
push_cmd = "git push origin v23/R2-GI-PROBE-ISOLATION:refs/heads/v23/R2-GI-PROBE-ISOLATION"

abbrev pub push_summary : String
push_summary = "new branch at 0fd8095 (no force, no PR); triggers ggen_igniter CI on push"

abbrev pub push_role : String
push_role = "remote effect"
