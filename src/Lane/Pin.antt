-- ===== src/Lane/Pin.antt =====
-- `receipts/v26.9.23/R1-GI-PIN.logs/build_receipt.py`: which logs it reads, what it asserts of them, and
-- the receipt. Records: the logs. Commands: the entries. Document: what is written.
pub mod Records
pub mod Commands
pub mod Stated
pub mod Document
pub mod Laws
use Prim.Native.String.{◌++◌ as ◌<>◌}
use ggen_igniter.Base.{
  ℕ, String, Option, none, some, List, [], ◌∷◌, ◌++◌, Bool, true, false, not, all, map, filter,
  ◌==◌, option_eq, string_eq, number_eq, if◌then◌else◌,
}
use ggen_igniter.Base.Sort.{sort, str_le}
use ggen_igniter.Base.Text.{after_last, take_chars, path_join, is_prefix}
use ggen_igniter.Lane.Exec.{Built, built, failed, usage, ◌>>=◌, assert_that, opened}
use ggen_igniter.Lane.Log.{Log, log_of}
use ggen_igniter.Lane.Pin.Records.{
  logs, base, pre_fix, round0_gate_head, test_file, World, Command, Evidence, at_base, killed,
}
use ggen_igniter.Lane.Pin.Commands.{commands_of, falsifiers_of}
use ggen_igniter.Lane.Pin.Stated.{ident_path, diff_path, ident0_path, diff0_path, Facts}
use ggen_igniter.Lane.Pin.Document.{document}
use ggen_igniter.Json.{Json}

pub data Standing : Type 0 where
  alive partial_alive : Standing

pub record Receipt : Type 0 where
  pub subject : String
  pub lane_commits : List String
  pub commands : List Command
  pub falsifiers : List Command
  pub files : List String
  pub same_diff : Bool
  pub standing : Standing
  pub broken_term : Option String
  pub document : Json

-- The log of a witness of a subject.
unfoldable pub witness_name : String → String → String
unfolding take_chars
witness_name subject name = name <> (take_chars 7 subject <> ".log")

module _ (w : World) where
  unfoldable pub parse : String → Built Log
  unfolding opened path_join log_of
  parse name = do
    text ← opened (path_join logs name) (w.read (path_join logs name))
    built (log_of w.sha256 (path_join logs name) text)

  -- `sha(path)`
  unfoldable pub sha : String → Built String
  unfolding opened
  sha path = do text ← opened path (w.read path); built (w.sha256 text)

-- `assert e["head"] == head`, for each of the logs
unfoldable pub assert_heads : String → List Log → Built (Unit {0})
unfolding all assert_that
assert_heads head entries = assert_that (all (λ (e : Log). e.head == some head) entries)

-- `assert w["exit"] != 0`, for each of the witnesses
unfoldable pub assert_killed : List Log → Built (Unit {0})
unfolding all assert_that
assert_killed entries = assert_that (all (λ (e : Log). not (e.exit == some 0)) entries)

-- `all(c["exit"] == 0 for c in commands)`
unfoldable pub all_zero : List Command → Bool
unfolding all
all_zero commands = all (λ (c : Command). c.entry.exit == some 0) commands

unfoldable pub standing_of : List Command → Standing
unfolding all_zero
standing_of commands = if all_zero commands then alive else partial_alive

unfoldable pub broken_term_of : List Command → Option String
unfolding all_zero
broken_term_of commands = if all_zero commands then none else some "mu_unlawful"

unfoldable pub files_changed : List String → List String
unfolding filter is_prefix sort str_le
files_changed listing = sort str_le (
    "receipts/v26.9.23/R1-GI-PIN.json"
    ∷ test_file
    ∷ "HANDWRITTEN.md"
    ∷ map (λ n. logs <> ("/" <> n)) (filter (λ n. not (is_prefix "." n)) listing))

module _ (w : World) (subject : String) where
  -- The logs that are read, with the assertion on the gate's head.
  unfoldable pub read_logs : String → Built Evidence
  unfolding parse assert_heads witness_name
  read_logs gate_log = do
    gate ← parse w gate_log
    u ← assert_heads subject (gate ∷ [])
    fmt ← parse w "01-format-3ed6a7a.log"
    dep_dev ← parse w "00-deps-compile-dev.log"
    comp ← parse w "02-compile-3ed6a7a.log"
    credo ← parse w "03-credo-3ed6a7a.log"
    dep_test ← parse w "04a-deps-compile-test.log"
    comp_test ← parse w "04b-compile-test.log"
    test ← parse w "04-test-3ed6a7a.log"
    fals ← parse w "06-falsifier-format-3937a4f.log"
    gate0 ← parse w "10-lane-gate-7e8bfa3.log"
    w_base ← parse w (witness_name subject "20-witness-baseline-")
    w_revert ← parse w (witness_name subject "21-witness-revert-mutation-")
    w_tamper ← parse w (witness_name subject "22-witness-log-tamper-")
    w_bump ← parse w (witness_name subject "23-witness-pin-bump-")
    w_amb ← parse w (witness_name subject "24-witness-ambient-")
    built (record {
      gate = gate;
      fmt = fmt;
      dep_dev = dep_dev;
      comp = comp;
      credo = credo;
      dep_test = dep_test;
      comp_test = comp_test;
      test = test;
      fals = fals;
      gate0 = gate0;
      w_base = w_base;
      w_revert = w_revert;
      w_tamper = w_tamper;
      w_bump = w_bump;
      w_amb = w_amb;
    })

  -- The assertions on the heads and on the exits of the witnesses.
  unfoldable pub assert_logs : Evidence → Built (Unit {0})
  unfolding assert_heads
  assert_logs e = do
    u ← assert_heads base (at_base e)
    u ← assert_heads pre_fix (e.fals ∷ [])
    u ← assert_heads round0_gate_head (e.gate0 ∷ [])
    assert_heads subject (e.w_base ∷ killed e)

-- The facts of the document, with the digests of the five files.
unfoldable pub facts_of :
    World
    → String
    → List String
    → String
    → Evidence
    → String
    → String
    → String
    → String
    → String
    → Facts
unfolding files_changed all_zero commands_of
facts_of w subject lane_commits ident_text e diff diff0 ident ident0 lock = record {
  subject = subject;
  lane_commits = lane_commits;
  evidence = e;
  ident_text = ident_text;
  files = files_changed w.listing;
  diff_sha = diff;
  diff0_sha = diff0;
  ident_sha = ident;
  ident0_sha = ident0;
  lock_sha = lock;
  all_zero = all_zero (commands_of subject e);
}

module _ (w : World) (subject : String) (lane_commits : List String) where
  -- The receipt, from the logs on and from the text of the build identity.
  unfoldable pub receipt_of : String → Evidence → Built Receipt
  unfolding sha ident_path diff_path ident0_path diff0_path assert_killed commands_of falsifiers_of
      standing_of broken_term_of files_changed document facts_of
  receipt_of ident_text e = do
    diff ← sha w (diff_path subject)
    diff0 ← sha w diff0_path
    u ← assert_killed (killed e)
    ident ← sha w (ident_path subject)
    ident0 ← sha w ident0_path
    lock ← sha w "mix.lock"
    built (record {
      subject = subject;
      lane_commits = lane_commits;
      commands = commands_of subject e;
      falsifiers = falsifiers_of subject e;
      files = files_changed w.listing;
      same_diff = diff == diff0;
      standing = standing_of (commands_of subject e);
      broken_term = broken_term_of (commands_of subject e);
      document =
          document (facts_of w subject lane_commits ident_text e diff diff0 ident ident0 lock);
    })

  unfoldable pub build_from : String → Built Receipt
  unfolding read_logs assert_logs receipt_of opened ident_path
  build_from gate_log = do
    e ← read_logs w subject gate_log
    ident ← opened (ident_path subject) (w.read (ident_path subject))
    u ← assert_logs w subject e
    receipt_of ident e

-- `main(argv)`
unfoldable pub build_receipt : World → List String → Built Receipt
unfolding build_from after_last
build_receipt w (script ∷ gate ∷ subject ∷ commit ∷ commits) =
    build_from w subject (commit ∷ commits) (after_last b'/' gate)
build_receipt w [] = failed usage
build_receipt w (script ∷ []) = failed usage
build_receipt w (script ∷ gate ∷ []) = failed usage
build_receipt w (script ∷ gate ∷ subject ∷ []) = failed usage
