-- ===== src/Lib.antt =====
-- A verification library for the Python code of ggen_igniter: the scripts under
-- priv/ggen/ash-manufacture-pack/bin that decide whether a manufacture of an Ash application from an
-- ontology is lawful, the script under scripts that patches the library's sources, and the scripts
-- under receipts/v26.9.23 that build the receipts of two lanes.
--
-- The parts and how they interact
--
-- A harness runs the rendered manufacture task twice and leaves OCEL 2.0 documents and a ledger,
-- steps.jsonl. conformance.py reads the ontology's capabilities, the rendered plan, the ledger and
-- the documents, and prints a verdict. drift_check.py compares the ontology with the rendered plan in
-- both directions. citation_check.py and evidence_check.py resolve the ontology's citations into the
-- dependencies of the fixture. isolate_db.py gives each run a database of its own. receipt.py reads
-- the ledger, the snapshots of the tree and of the database, and the verdict, and reports the
-- standing of the whole run. The receipts of the lanes are built from the logs of their steps.
--
-- The files, with the code that they are about
--
--   Base, and the modules below it: tests, equality, lists, sorting, dicts, texts and exceptions, as
--     the scripts use those of Python. A dict is an association list in insertion order. sorted is
--     insertion sort, which is stable. A set is a list without repetition, whose order is not used.
--     A KeyError or TypeError is the outcome `raised` of a Result.
--   Regex: the part of Python's re that the scripts use, as a backtracking matcher. Syntax: the
--     pieces of the patterns. Laws, Complete, Captures: the matcher against a matching relation.
--   Turtle: what the parsers of ontology.ttl share.
--   Json: JSON values, as they are decoded and printed.
--   Ocel: a decoded document, and events_of of conformance.py. Ocel/Values: the values of attributes.
--   Conformance: conformance.py, its vocabulary and load_ledger. Parse: parse_admitted and
--     parse_plan. Structure: check_structure. Seal: check_seal_ledger. Coverage: check_coverage.
--     Streams: the checks of admission, refusal and order in main. Subjects: underscore and
--     check_subjects_on_disk. Main: main.
--   Drift: drift_check.py. Parse: parse_ontology. Rendered: parse_rendered, and the script from the
--     two texts on. Argv: values_after and enum_values_in_argv. Forward, Repeatable: direction
--     1 of main. Backward: direction 2. Main: the report and the exit code. Quiet, Flags, Csv, Lists,
--     Tasks: what the loops accept, Parts and Exact: what the report accepts. Truth:
--     what its findings say.
--   Receipt: receipt.py. Oracles: same and compare_state. Manifest: manifest_paths. Provenance: the
--     lists of files. Matrix: the capability matrix and lock_versions. Standing: the failed oracles, the
--     standing and the exit code. World: what it can read. Main: main, with the parts of the printed
--     document in Main/Parts, its fixed texts in Main/Texts, the files that it counts in
--     Main/Inputs and all that it opens, in the order of the script, in Main/Reads.
--   Citation: citation_check.py, with its parsers in Parse. Evidence: evidence_check.py, with
--     references in References.
--   Isolate: isolate_db.py. Patch: scripts/forbid_generated_output_dir_once.py, with its literals in
--     Texts. Patch/Chains and Patch/Again: the script run twice.
--   Lane: the scripts under receipts. Log: steplog.py and the reading of a log. Pin:
--     R1-GI-PIN.logs/build_receipt.py, with its logs in Pin/Records, its commands in Pin/Commands, its
--     fixed statements in Pin/Stated and what it writes in Pin/Document. Probe:
--     R2-GI-PROBE-ISOLATION.gate/build_receipt.py, with its commands in Probe/Entries and what it
--     writes in Probe/Document. Exec: how they end without a receipt.
--   The theorems on a module are in its child Laws or in a child named for what it shows (in
--   Conformance/Main Documents, Names, Runs, Accepted, Loaded and Flip, in Receipt/Main Counts,
--   Returns, StepLines, Countable, Pack and Ends, and Paths, Files, Steps).
--   Tests: concrete inputs.
--
-- A finding is a constructor of Violation, Finding, Drift, Miss or Problem for each message of a
-- script, with the values that the message prints, in the order in which the script reports them.
--
-- Bounds and fuel
--
-- Every loop of the modelled code runs over a finite sequence and is structural recursion. There are
-- two bounds. That of the rounds of a repetition in a pattern is the length of the rest of the text,
-- which is enough, since a round that does not move on ends the repetition (Regex.Complete shows that
-- no match is lost). That of the digits of a number (Base/Text/Decimal) is the number itself, which is
-- enough, since every division by ten makes it smaller. Python's integers have no bound: a count and a
-- line number are natural numbers. The exit of a step in the ledger is an integer, that of a process
-- in a log is a natural number.
--
-- What is not modelled
--
-- The file system, SHA-256 and json.load are parameters: the fields of World in Conformance/Main,
-- Lane/Pin and Lane/Probe, and the functions digest, read and count_lines. The scripts that write
-- (Isolate, Patch) work on a dict from path to text. A document's names are texts and the values of
-- its attributes are null, integers or texts. Capitals, small letters, digits, word characters and
-- white space are those of ASCII, in patterns too. The text of the messages, the digests and the
-- counts that are printed beside a verdict are left out, as is the code that is not Python. The shell,
-- through which receipt.py asks git, elixir and postgres, is a parameter, and so are relative paths and
-- the JSON decoder, which may raise; what it gives receipt.py is an object. A file that is there can be
-- read and is text; a directory that is opened ends receipt.py, as does a key that a step does not
-- have.
pub mod Base
pub mod Regex
pub mod Turtle
pub mod Ocel
pub mod Json
pub mod Conformance
pub mod Drift
pub mod Receipt
pub mod Citation
pub mod Evidence
pub mod Isolate
pub mod Patch
pub mod Lane
pub mod Tests
