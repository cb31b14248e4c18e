-- ===== src/Receipt/Main/Texts.antt =====
-- The texts that the receipt has in every run, as the literals of `main` spell them.
use ggen_igniter.Base.{String}

abbrev pub schema : String
schema = "ggen_igniter.qualification.receipt/1"

abbrev pub isolation_note : String
isolation_note =
    "The manufactured repo config was rewritten to a run-scoped database before any DB-touching lifecycle step, so a filesystem-disposable copy does not silently address the original database."

abbrev pub semantic_oracle : String
semantic_oracle =
    "mix book_library.manufacture --phase <p> --check -- Igniter halt_if_fails_check!/3 halts non-zero on any change, warning, issue, queued task, move or removal. Exit code alone from a normal run is NOT an oracle: issues return :issues without halting (igniter.ex:1279-1281)."

abbrev pub fixpoint_rationale : String
fixpoint_rationale =
    "T1 == T2 is consistent with a period-2 cycle as well as with a fixpoint. A third actuation is what separates them: only T2 == T3 makes 'the manufacturing path has a fixpoint' a tested claim."

abbrev pub db_oracle : String
db_oracle =
    "bin/db_fingerprint.sql projects columns, constraints, indexes and applied migration versions. D1 is captured after run 1's `mix ash.setup`, D2 after a SECOND `mix ash.setup` in run 2, D3 after `mix ash.migrate` in run 3."

abbrev pub db_oracle_scope : String
db_oracle_scope =
    "D-files are comparable only WITHIN one qualification run's database. Index and constraint names are database-local -- Postgres names NOT NULL check constraints after the table OID (observed: `2200_69000_1_not_null`) -- so D-files from two different runs are EXPECTED to differ and a diff across runs would mean nothing. The oracle is 'this database did not change between lifecycle steps', never 'two runs produced the same database'."

abbrev pub refusal_hook : String
refusal_hook = ".claude/hooks/refuse-handwritten-ash.sh"

abbrev pub wired_as : String
wired_as = "PreToolUse Edit|Write in .claude/settings.json"

abbrev pub refusal_limit : String
refusal_limit =
    "A content pattern-match, not a proof. It catches the observed failure mode (an agent writing `use Ash.Resource` directly) and will not catch every conceivable route to the same outcome."

abbrev pub replay : String
replay = "bash test/fixtures/ash_manufacture_pack/bin/qualify.sh"

abbrev pub scope : String
scope =
    "Scoped to THIS exact subject only: the book_library fixture at the dependency versions listed under toolchain.deps, on this machine, with a live local PostgreSQL. It is not a claim about other Ash projects, other dependency versions, or the Tier-1 tasks whose standing above is not ALIVE."
