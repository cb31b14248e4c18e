-- ===== src/Tests/Lanes.antt =====
-- Receipts of lanes from logs of the shape that step.sh writes.
use Prim.Native.String.{◌++◌ as ◌<>◌}
use ggen_igniter.Base.{String, List, some, none, [], ◌∷◌, ◌++◌, ◌≡◌, refl, map, true, string_eq}
use ggen_igniter.Base.Dict.{Dict, lookup}
use ggen_igniter.Base.Text.{path_join, after_last}
use ggen_igniter.Lane.Exec.{built, failed, assertion}
use ggen_igniter.Lane.Log.{Log, log_of, summarize, failing}
use ggen_igniter.Lane.Pin.Records.{World, Evidence, logs, base, pre_fix, round0_gate_head}
use ggen_igniter.Lane.Pin.Commands.{commands_of, falsifiers_of}
use ggen_igniter.Lane.Pin.Stated.{ident_path, diff_path}
use ggen_igniter.Lane.Pin.Document.{document}
use ggen_igniter.Lane.Pin.{Receipt, alive, files_changed, facts_of, build_receipt}
use ggen_igniter.Lane.Pin.Laws.{IsReceiptOf, build_receipt-IsReceiptOf}

abbrev subject : String
subject = "0123456789abcdef0123456789abcdef01234567"

abbrev log_text : String → String → String
log_text head exit = "# cwd=/w head=" <> (head <> (" started=10:00\n1 test, 0 failures\n" <> exit))

abbrev ended : String → String
ended exit = "# ended=10:01 exit=" <> (exit <> "\n")

abbrev log_file : String → String → String → String × String
log_file head exit name = (path_join logs name, log_text head exit)

abbrev base_names : List String
base_names =
    "01-format-3ed6a7a.log" ∷ "00-deps-compile-dev.log" ∷ "02-compile-3ed6a7a.log"
    ∷ "03-credo-3ed6a7a.log" ∷ "04a-deps-compile-test.log" ∷ "04b-compile-test.log"
    ∷ "04-test-3ed6a7a.log" ∷ []

abbrev pin_files : String → Dict String String
pin_files bump =
    map (log_file base (ended "0")) base_names
    ++ (map (log_file subject (ended "2")) (
          "21-witness-revert-mutation-0123456.log" ∷ "22-witness-log-tamper-0123456.log"
          ∷ "24-witness-ambient-0123456.log" ∷ [])
        ++ (log_file subject bump "23-witness-pin-bump-0123456.log"
            ∷ log_file subject (ended "0") "20-witness-baseline-0123456.log"
            ∷ log_file subject (ended "0") "11-lane-gate.log"
            ∷ log_file pre_fix (ended "1") "06-falsifier-format-3937a4f.log"
            ∷ log_file round0_gate_head (ended "0") "10-lane-gate-7e8bfa3.log"
            ∷ (ident_path subject, "otp_release=27\n")
            ∷ (diff_path subject, "diff")
            ∷ (path_join logs "post-test.tracked.diff", "diff")
            ∷ (path_join logs "05-build-identity.log", "otp_release=27\n")
            ∷ ("mix.lock", "%{}")
            ∷ []))

abbrev pin_world : String → World
pin_world bump = record {
  read = λ path. lookup path (pin_files bump);
  sha256 = λ text. text;
  listing = "step.sh" ∷ ".DS_Store" ∷ [];
}

abbrev pin_log : String → String → String → Log
pin_log head exit name = log_of (λ text. text) (path_join logs name) (log_text head exit)

pin_evidence : String → Evidence
pin_evidence bump = record {
  gate = pin_log subject (ended "0") "11-lane-gate.log";
  fmt = pin_log base (ended "0") "01-format-3ed6a7a.log";
  dep_dev = pin_log base (ended "0") "00-deps-compile-dev.log";
  comp = pin_log base (ended "0") "02-compile-3ed6a7a.log";
  credo = pin_log base (ended "0") "03-credo-3ed6a7a.log";
  dep_test = pin_log base (ended "0") "04a-deps-compile-test.log";
  comp_test = pin_log base (ended "0") "04b-compile-test.log";
  test = pin_log base (ended "0") "04-test-3ed6a7a.log";
  fals = pin_log pre_fix (ended "1") "06-falsifier-format-3937a4f.log";
  gate0 = pin_log round0_gate_head (ended "0") "10-lane-gate-7e8bfa3.log";
  w_base = pin_log subject (ended "0") "20-witness-baseline-0123456.log";
  w_revert = pin_log subject (ended "2") "21-witness-revert-mutation-0123456.log";
  w_tamper = pin_log subject (ended "2") "22-witness-log-tamper-0123456.log";
  w_bump = pin_log subject bump "23-witness-pin-bump-0123456.log";
  w_amb = pin_log subject (ended "2") "24-witness-ambient-0123456.log";
}

pin_receipt : String → Receipt
unfolding commands_of falsifiers_of files_changed pin_evidence
pin_receipt bump = record {
  subject = subject;
  lane_commits = "c1" ∷ [];
  commands = commands_of subject (pin_evidence bump);
  falsifiers = falsifiers_of subject (pin_evidence bump);
  files = files_changed ("step.sh" ∷ ".DS_Store" ∷ []);
  same_diff = true;
  standing = alive;
  broken_term = none;
  document = document (
      facts_of (pin_world bump) subject ("c1" ∷ []) "otp_release=27\n" (pin_evidence bump) "diff"
        "diff" "otp_release=27\n" "otp_release=27\n" "%{}");
}

pin_built :
    build_receipt
      (pin_world (ended "2"))
      ("build_receipt.py" ∷ "logs/11-lane-gate.log" ∷ subject ∷ "c1" ∷ [])
    ≡ built (pin_receipt (ended "2"))
unfolding build_receipt pin_receipt lookup path_join ident_path diff_path log_of
pin_built = refl

build_receipt-IsReceiptOf_example :
    IsReceiptOf (pin_world (ended "2")) subject "11-lane-gate.log" (pin_receipt (ended "2"))
unfolding after_last
build_receipt-IsReceiptOf_example =
    build_receipt-IsReceiptOf (pin_world (ended "2")) "build_receipt.py" "logs/11-lane-gate.log"
      subject "c1" [] (pin_receipt (ended "2")) pin_built

-- A witness whose log has no line for its end passes for killed.
unended_built :
    build_receipt
      (pin_world "")
      ("build_receipt.py" ∷ "logs/11-lane-gate.log" ∷ subject ∷ "c1" ∷ [])
    ≡ built (pin_receipt "")
unfolding build_receipt pin_receipt lookup path_join ident_path diff_path log_of
unended_built = refl

-- One that ended with 0 does not.
survived_fails :
    build_receipt
      (pin_world (ended "0"))
      ("build_receipt.py" ∷ "logs/11-lane-gate.log" ∷ subject ∷ "c1" ∷ [])
    ≡ failed assertion
unfolding build_receipt lookup path_join ident_path diff_path
survived_fails = refl

abbrev passed_log : String
passed_log =
    "# cwd=/w head=0123456789abcdef0123456789abcdef01234567 started=10:00\n# cmd=mix test\nElixir 1.18.4\nFinished in 2.0 seconds\n3 tests, 1 failure\n  1) test pin (PinTest)\n# ended=10:01 exit=2\n"

passed_summary :
    let s = summarize (λ text. "d") "a.log" passed_log in
    (s.cmd ≡ some "mix test")
    × (s.key_lines ≡ "Elixir 1.18.4" ∷ "Finished in 2.0 seconds" ∷ "3 tests, 1 failure" ∷ [])
    × (s.entry.exit ≡ some 2)
    × (failing s.entry ≡ "1) test pin (PinTest)" ∷ [])
unfolding summarize failing
passed_summary = (refl, refl, refl, refl)
