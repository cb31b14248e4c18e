-- ===== src/Tests/Probes.antt =====
-- A receipt of the probe lane.
use Prim.Native.String.{◌++◌ as ◌<>◌}
use ggen_igniter.Base.{
  String, some, none, [], ◌∷◌, ◌++◌, ◌≡◌, refl, map, true, ◌==◌, string_eq, if◌then◌else◌,
}
use ggen_igniter.Lane.Exec.{failed, assertion}
use ggen_igniter.Lane.Probe.{
  World, Hosted, HostedRun, Command, Receipt, partial_alive, gate_digest, candidate_digest,
  push_command, facts_of, build_receipt,
}
use ggen_igniter.Lane.Probe.Entries.{Entry, command_logs, falsifier_logs, gate_dir, subj}
use ggen_igniter.Lane.Probe.Document.{document}

-- Every file holds its own path.
digest_of : String → String
digest_of text =
    if text == gate_dir <> "/r2-gi-probe-isolation.sh"
    then gate_digest
    else if text == gate_dir <> "/candidate-r2-gi-probe-isolation.patch"
    then candidate_digest
    else text

abbrev probe_world : World
probe_world = record {
  read = λ path. some path;
  sha256 = digest_of;
  root = "/wt";
  listing = "build_receipt.py" ∷ [];
}

abbrev probe_run : Hosted
probe_run = record {
  members = [];
  run_id = "35945312173";
  head_sha = some subj;
  conclusion = some "success";
}

attested : Entry → Command
unfolding digest_of
attested e = record {
  command = e.command;
  exit = e.exit;
  summary = e.summary;
  role = e.role;
  log = some (gate_dir <> ("/" <> e.name));
  output_sha256 = some (digest_of (gate_dir <> ("/" <> e.name)));
}

probe_hosted : HostedRun
probe_hosted = record {
  run = probe_run;
  log = gate_dir <> "/50-hosted-ci-35945312173.log";
  output_sha256 = gate_dir <> "/50-hosted-ci-35945312173.log";
  run_json = none;
}

-- The full suite failed with 2.
probe_receipt : Receipt
unfolding attested command_logs probe_hosted
probe_receipt = record {
  commands =
      map attested (command_logs gate_digest candidate_digest 2 "1349 tests, 1 failure")
      ++ (push_command ∷ []);
  falsifiers = map attested falsifier_logs;
  hosted_ci = probe_hosted;
  hosted_ci_history = probe_hosted ∷ [];
  hosted_ok = true;
  standing = partial_alive;
  broken_term = some "mu_on_O";
  document = document (
      facts_of probe_world gate_digest 2
        (map attested (command_logs gate_digest candidate_digest 2 "1349 tests, 1 failure"))
        (map attested falsifier_logs) probe_hosted []);
}

-- A changed gate script ends the script.
changed_fails :
    build_receipt (record probe_world { sha256 = λ text. text }) 0 "1349 tests" probe_run none
    ≡ failed assertion
unfolding build_receipt
changed_fails = refl
