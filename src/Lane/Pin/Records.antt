-- ===== src/Lane/Pin/Records.antt =====
-- The logs and the world of R1-GI-PIN.logs/build_receipt.py, and an entry of its commands.
use Prim.Native.String.{◌++◌ as ◌<>◌}
use ggen_igniter.Base.{String, Option, List, [], ◌∷◌}
use ggen_igniter.Lane.Log.{Log}

abbrev pub lane : String
lane = "R1-GI-PIN"

abbrev pub logs : String
logs = "receipts/v26.9.23/R1-GI-PIN.logs"

abbrev pub wt : String
wt = "/Users/sac/wt/v26922/v23/R1-GI-PIN"

abbrev pub scratch : String
scratch =
    "/private/tmp/claude-501/-Users-sac/1fecd79a-9323-4b57-a949-d7892a3ea283/scratchpad/r1gipin-r1"

abbrev pub pin : String
pin =
    "PATH=/Users/sac/.asdf/installs/elixir/1.18.4-otp-27/bin:/Users/sac/.asdf/installs/erlang/27.2.4/bin:$PATH"

unfoldable pub gate_cmd : String
gate_cmd =
    pin
    <> " sh -c 'elixir --version && mix format --check-formatted && mix compile --warnings-as-errors --force && mix credo && mix test'"

abbrev pub base : String
base = "3ed6a7afc51fcfc652cfa72f75680d7fa1543bc8"

abbrev pub pre_fix : String
pre_fix = "3937a4f89ecf2b7fa12068406377c05ec1a1b8fc"

abbrev pub round0_gate_head : String
round0_gate_head = "7e8bfa3b4c664b7b09bd5d75ddfca491d2adb4d6"

abbrev pub test_file : String
test_file = "test/ggen_igniter_toolchain_pin_qualification_test.exs"

unfoldable pub test_cmd : String
test_cmd = pin <> (" MIX_ENV=test mix test " <> test_file)

-- What the script reads: files, digests and the listing of the directory of the logs.
pub record World : Type 0 where
  pub read : String → Option String
  pub sha256 : String → String
  pub listing : List String

-- An entry of `commands` or of the falsifiers. What it prints of the log is read of `entry`.
pub record Command : Type 0 where
  pub entry : Log
  pub command : String
  pub summary : String
  pub role : Option String
  pub verdict : Option String

-- The logs that a receipt is built from.
pub record Evidence : Type 0 where
  pub gate : Log
  pub fmt : Log
  pub dep_dev : Log
  pub comp : Log
  pub credo : Log
  pub dep_test : Log
  pub comp_test : Log
  pub test : Log
  pub fals : Log
  pub gate0 : Log
  pub w_base : Log
  pub w_revert : Log
  pub w_tamper : Log
  pub w_bump : Log
  pub w_amb : Log

-- The logs of the steps at the base, and those of the witnesses that have to fail.
abbrev pub at_base : Evidence → List Log
at_base e = e.fmt ∷ e.dep_dev ∷ e.comp ∷ e.credo ∷ e.dep_test ∷ e.comp_test ∷ e.test ∷ []

abbrev pub killed : Evidence → List Log
killed e = e.w_revert ∷ e.w_tamper ∷ e.w_bump ∷ e.w_amb ∷ []
