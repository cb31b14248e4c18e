-- ===== src/Conformance/Seal.antt =====
-- `check_seal_ledger`.
pub mod Laws
use Prim.Native.Nat.{ℕ, ◌-◌}
use Prim.Native.String.{count as chars}
use ggen_igniter.Base.{
  String, Option, none, some, List, [], ◌∷◌, ◌++◌, Bool, true, false, filter, if◌then◌else◌, ◌==◌,
  contains, string_eq, option_eq,
}
use ggen_igniter.Base.Dict.{lookup}
use ggen_igniter.Base.Exec.{Result, ok, ◌>>=◌}
use ggen_igniter.Base.Text.{after_last, take_chars}
use ggen_igniter.Ocel.{Value, int, pos, RawEvent, Doc, or_empty, attrs_of, get_value, value_eq}
use ggen_igniter.Conformance.{
  Violation, mistyped_seal, no_ledger_step, exit_mismatch, LedgerRecord, Ledger, ledger_label,
  seal_applied, seal_aborted,
}

abbrev pub ocel_suffix : String
ocel_suffix = ".ocel.json"

-- `name[: -len(OCEL_SUFFIX)].rsplit(".", 1)[-1]`
unfoldable pub phase_of_name : String → String
unfolding after_last take_chars
phase_of_name name = after_last b'.' (take_chars (chars name - chars ocel_suffix) name)

-- `e.get("type") in (SEAL_APPLIED, SEAL_ABORTED)`
unfoldable pub is_seal : RawEvent → Bool
unfolding contains
is_seal e = contains (some seal_applied ∷ some seal_aborted ∷ []) e.type

unfoldable pub expected_activity : Value → String
expected_activity exit = if exit == int (pos 0) then seal_applied else seal_aborted

-- What the ledger says of a seal: the step that its label names, if there is one.
ledger_violations : String → String → Value → Option LedgerRecord → List Violation
ledger_violations place label exit none = no_ledger_step place label exit ∷ []
ledger_violations place label exit (some rec) =
    if get_value rec.exit == exit
    then []
    else exit_mismatch place exit label (get_value rec.exit) ∷ []

-- The exit that a seal records.
unfoldable pub seal_exit : RawEvent → Result Value
unfolding attrs_of
seal_exit e = do attrs ← attrs_of e.attributes; ok (get_value (lookup "exit" attrs))

seal_violations : String → String → Ledger → RawEvent → Result (List Violation)
unfolding expected_activity ledger_violations seal_exit
seal_violations place label ledger e = do
  exit ← seal_exit e
  ok (
      (if e.type == some (expected_activity exit)
        then []
        else mistyped_seal place e.id exit (expected_activity exit) ∷ [])
      ++ ledger_violations place label exit (lookup label ledger))

seals_violations : String → String → Ledger → List RawEvent → Result (List Violation)
unfolding seal_violations
seals_violations place label ledger [] = ok []
seals_violations place label ledger (e ∷ es) = do
  here ← seal_violations place label ledger e
  rest ← seals_violations place label ledger es
  ok (here ++ rest)

-- `run` and `name` are those of the document, and `place` is their "run/name".
unfoldable pub check_seal_ledger : String → String → String → Doc → Ledger → Result (List Violation)
unfolding seals_violations is_seal phase_of_name
check_seal_ledger place run name doc ledger =
    seals_violations place (ledger_label (phase_of_name name) run) ledger
      (filter is_seal (or_empty doc.events))
