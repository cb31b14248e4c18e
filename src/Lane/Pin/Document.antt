-- ===== src/Lane/Pin/Document.antt =====
-- The document of the receipt, by its keys.
pub mod Order
pub mod Outcome
pub mod Observed
pub mod Laws
use Prim.Native.String.{◌++◌ as ◌<>◌}
use ggen_igniter.Base.{
  ℕ, String, Option, none, some, List, [], ◌∷◌, ◌++◌, Bool, true, false, map, if◌then◌else◌, ◌==◌,
  string_eq,
}
use ggen_igniter.Base.Text.{take_chars, after_last, path_join}
use ggen_igniter.Base.Text.Decimal.{decimal}
use ggen_igniter.Ocel.{pos}
use ggen_igniter.Json.{
  Json, boolean, number, text, array_of, object_of, texts_of, text_or_null, exit_or_null,
}
use ggen_igniter.Regex.{Regex, one, ◌▸◌}
use ggen_igniter.Regex.Syntax.{literal, many, line_char, line_start, line_end}
use ggen_igniter.Lane.Log.{Log, line}
use ggen_igniter.Lane.Pin.Records.{
  lane, logs, wt, scratch, pin, gate_cmd, base, pre_fix, round0_gate_head, test_file, test_cmd,
  Command, Evidence,
}
use ggen_igniter.Lane.Pin.Commands.{commands_of, falsifiers_of, total_pattern, finished_pattern}
use ggen_igniter.Lane.Pin.Document.Order.{work_order, identity, authority}
use ggen_igniter.Lane.Pin.Document.Outcome.{consequence, replay}
use ggen_igniter.Lane.Pin.Document.Observed.{observations, toolchain, findings}
use ggen_igniter.Lane.Pin.Stated.{
  Facts, ident_path, diff_path, ident0_path, diff0_path, otp_pattern, shown_exit, command_json,
}

module _ (f : Facts) where
  standing_from : String
  unfolding take_chars line total_pattern shown_exit
  standing_from =
      "literal lane gate on the committed lane head "
      <> (f.subject
          <> (" under the .tool-versions pin (Elixir 1.18.4-otp-27 / Erlang 27.2.4, OTP-27 _build compiled with --force, NIF rebuilt): exit "
              <> (shown_exit f.evidence.gate.exit
                  <> (" ("
                      <> (line f.evidence.gate.text total_pattern
                          <> ("); the new test "
                              <> (test_file
                                  <> (" passes on the subject and is killed by the revert mutation, a log tamper, a pin bump and the ambient toolchain (falsifiers[1..4]); round 0 pinned steps at the base "
                                      <> (take_chars 7 base
                                          <> (": format 0, compile 0, credo 0, mix test 0 ("
                                              <> (line f.evidence.test.text total_pattern
                                                  <> ")")))))))))))

  standing_json : Json
  unfolding object_of standing_from
  standing_json = object_of (
      ("value", text (if f.all_zero then "ALIVE" else "PARTIAL_ALIVE"))
      ∷ ("derived_from", text standing_from)
      ∷ (if f.all_zero then [] else ("broken_term", text "mu_unlawful") ∷ []))

  -- `receipt`
  unfoldable pub document : Json
  unfolding object_of array_of command_json falsifiers_of standing_json work_order identity
      authority consequence replay observations toolchain findings
  document = object_of (
      ("work_order", work_order f)
      ∷ ("identity", identity f)
      ∷ ("authority", authority f)
      ∷ ("consequence", consequence f)
      ∷ ("replay", replay f)
      ∷ ("falsifiers", array_of (map command_json (falsifiers_of f.subject f.evidence)))
      ∷ ("observations", observations f)
      ∷ ("toolchain", toolchain f)
      ∷ ("findings", findings f)
      ∷ ("standing", standing_json)
      ∷ [])
