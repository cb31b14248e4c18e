-- ===== src/Lane/Probe.antt =====
-- `receipts/v26.9.23/R2-GI-PROBE-ISOLATION.gate/build_receipt.py`: the digests that it asserts and
-- records, and the receipt. Entries: the commands. Document: what is written.
pub mod Entries
pub mod Document
pub mod Laws
use Prim.Native.String.{◌++◌ as ◌<>◌}
use ggen_igniter.Base.{
  ℕ, String, Option, none, some, List, [], ◌∷◌, ◌++◌, Bool, true, false, ◌&&◌, ◌||◌, map, ◌==◌,
  option_eq, string_eq, number_eq, if◌then◌else◌,
}
use ggen_igniter.Base.Dict.{Dict, insert}
use ggen_igniter.Ocel.{pos}
use ggen_igniter.Json.{Json, text, number, object_of}
use ggen_igniter.Lane.Probe.Entries.{
  gate_dir, subj, head_gate, Entry, command_logs, falsifier_logs, push_cmd, push_summary, push_role,
}
use ggen_igniter.Lane.Probe.Document.{Facts, document}
use ggen_igniter.Lane.Exec.{Built, built, failed, ◌>>=◌, assert_that, opened}

abbrev pub gate_digest : String
gate_digest = "04b87f58eea52792270be4592b9deecdcf76e29d08ca1f3adb4dd1b555312946"

abbrev pub candidate_digest : String
candidate_digest = "6e61bfd4d92e812f3eba224bd922067d744ce7afb5f9bd24913ec935870e9513"

-- The worktree: its files and their digests.
pub record World : Type 0 where
  pub read : String → Option String
  pub sha256 : String → String
  pub root : String
  -- the names in the directory of the gate
  pub listing : List String

-- The object of a hosted run, and what the script reads of it. Its `run_id` is taken to be there.
pub record Hosted : Type 0 where
  pub members : Dict String Json
  pub run_id : String
  pub head_sha : Option String
  pub conclusion : Option String

-- A hosted run with its log, and with its object for the run on the gate's head.
pub record HostedRun : Type 0 where
  pub run : Hosted
  pub log : String
  pub output_sha256 : String
  pub run_json : Option (String × String)

pub record Command : Type 0 where
  pub command : String
  pub exit : ℕ
  pub summary : String
  pub role : String
  pub log : Option String
  pub output_sha256 : Option String

pub data Standing : Type 0 where
  alive partial_alive : Standing

pub record Receipt : Type 0 where
  pub commands : List Command
  pub falsifiers : List Command
  pub hosted_ci : HostedRun
  pub hosted_ci_history : List HostedRun
  pub hosted_ok : Bool
  pub standing : Standing
  pub broken_term : Option String
  pub document : Json

unfoldable pub push_command : Command
push_command = record {
  command = push_cmd;
  exit = 0;
  summary = push_summary;
  role = push_role;
  log = none;
  output_sha256 = none;
}

extra : String → Option String → List (String × Json)
extra key none = []
extra key (some s) = (key, text s) ∷ []

-- An entry of `commands`, or of `falsifiers` with its verdict.
unfoldable pub command_json : String → Option String → Command → Json
unfolding object_of extra
command_json wt verdict c = object_of (
    ("cmd", text c.command)
    ∷ ("cwd", text wt)
    ∷ ("exit", number (pos c.exit))
    ∷ ("summary", text c.summary)
    ∷ (extra "log" c.log
        ++ (("role", text c.role)
            ∷ (extra "output_sha256" c.output_sha256 ++ extra "verdict" verdict))))

run_members : Option (String × String) → Dict String Json → Dict String Json
unfolding insert
run_members none members = members
run_members (some (path, digest)) members =
    insert "run_json_sha256" (text digest) (insert "run_json" (text path) members)

-- A hosted run, with what the script adds to its object.
unfoldable pub hosted_json : HostedRun → Json
unfolding object_of run_members insert
hosted_json h = object_of (
    run_members h.run_json
      (insert "output_sha256" (text h.output_sha256) (insert "log" (text h.log) h.run.members)))

run_facts : HostedRun → String × Option String × Option String
run_facts h = (h.run.run_id, h.run.head_sha, h.run.conclusion)

module _ (w : World) where
  -- `sha(rel)`
  unfoldable pub sha : String → Built String
  unfolding opened
  sha rel = do content ← opened rel (w.read rel); built (w.sha256 content)

  -- `cmd`, of an entry with a log
  cmd : Entry → Built Command
  unfolding sha
  cmd e = do
    digest ← sha (gate_dir <> ("/" <> e.name))
    built (record {
      command = e.command;
      exit = e.exit;
      summary = e.summary;
      role = e.role;
      log = some (gate_dir <> ("/" <> e.name));
      output_sha256 = some digest;
    })

  unfoldable pub cmds : List Entry → Built (List Command)
  unfolding cmd
  cmds [] = built []
  cmds (e ∷ rest) = do command ← cmd e; commands ← cmds rest; built (command ∷ commands)

  -- The run on the product commit, and the one on the gate's head, if it is given.
  hosted_product : Hosted → Built HostedRun
  unfolding sha
  hosted_product h = do
    digest ← sha (gate_dir <> "/50-hosted-ci-35945312173.log")
    built (record {
      run = h;
      log = gate_dir <> "/50-hosted-ci-35945312173.log";
      output_sha256 = digest;
      run_json = none;
    })

  hosted_on_head : Option Hosted → Built (List HostedRun)
  unfolding sha
  hosted_on_head none = built []
  hosted_on_head (some h) = do
    digest ← sha (gate_dir <> ("/51-hosted-ci-" <> (h.run_id <> ".log")))
    json_digest ← sha (gate_dir <> ("/51-hosted-ci-" <> (h.run_id <> ".json")))
    built (
        record {
          run = h;
          log = gate_dir <> ("/51-hosted-ci-" <> (h.run_id <> ".log"));
          output_sha256 = digest;
          run_json = some (gate_dir <> ("/51-hosted-ci-" <> (h.run_id <> ".json")), json_digest);
        }
        ∷ [])

-- `hosted_history[-1]`
latest : HostedRun → List HostedRun → HostedRun
latest h [] = h
latest h (k ∷ ks) = latest k ks

is_hosted_ok : HostedRun → Bool
is_hosted_ok h =
    h.run.conclusion == some "success"
    && (h.run.head_sha == some subj || h.run.head_sha == some head_gate)

-- The facts of the document.
unfoldable pub facts_of :
    World → String → ℕ → List Command → List Command → HostedRun → List HostedRun → Facts
unfolding command_json hosted_json run_facts latest is_hosted_ok push_command
facts_of w gate_sha full_exit commands falsifiers product on_head = record {
  wt = w.root;
  gate_sha = gate_sha;
  full_exit = full_exit;
  listing = w.listing;
  commands = map (command_json w.root none) (commands ++ (push_command ∷ []));
  falsifiers = map (command_json w.root (some "killed")) falsifiers;
  hosted_ci = hosted_json (latest product on_head);
  hosted_ci_history = map hosted_json (product ∷ on_head);
  hosted_runs = map run_facts (product ∷ on_head);
  hosted_ok = is_hosted_ok (latest product on_head);
}

-- The script, of the exit and the summary of the full suite and of the hosted runs.
unfoldable pub build_receipt : World → ℕ → String → Hosted → Option Hosted → Built Receipt
unfolding sha cmds command_logs push_command hosted_product hosted_on_head latest is_hosted_ok
    assert_that document facts_of
build_receipt w full_exit full_summary hosted hosted_head = do
  gate_sha ← sha w (gate_dir <> "/r2-gi-probe-isolation.sh")
  u ← assert_that (gate_sha == gate_digest)
  cand_sha ← sha w (gate_dir <> "/candidate-r2-gi-probe-isolation.patch")
  u ← assert_that (cand_sha == candidate_digest)
  commands ← cmds w (command_logs gate_sha cand_sha full_exit full_summary)
  falsifiers ← cmds w falsifier_logs
  product ← hosted_product w hosted
  on_head ← hosted_on_head w hosted_head
  built (record {
    commands = commands ++ (push_command ∷ []);
    falsifiers = falsifiers;
    hosted_ci = latest product on_head;
    hosted_ci_history = product ∷ on_head;
    hosted_ok = is_hosted_ok (latest product on_head);
    standing = if full_exit == 0 then alive else partial_alive;
    broken_term = if full_exit == 0 then none else some "mu_on_O";
    document = document (facts_of w gate_sha full_exit commands falsifiers product on_head);
  })
