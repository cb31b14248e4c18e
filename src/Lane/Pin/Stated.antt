-- ===== src/Lane/Pin/Stated.antt =====
-- What the document of the receipt states besides the logs, and an entry of its commands as JSON.
use Prim.Native.String.{◌++◌ as ◌<>◌}
use ggen_igniter.Base.{ℕ, String, Option, none, some, List, [], ◌∷◌, ◌++◌, Bool, string_eq}
use ggen_igniter.Base.Text.{take_chars, path_join}
use ggen_igniter.Base.Text.Decimal.{decimal}
use ggen_igniter.Json.{Json, text, object_of, text_or_null, exit_or_null}
use ggen_igniter.Regex.{Regex, one, ◌▸◌}
use ggen_igniter.Regex.Syntax.{literal, many, line_char, line_start, line_end}
use ggen_igniter.Lane.Pin.Records.{logs, Command, Evidence}

-- What the document states besides the logs: the paths and digests of the other files, the names of
-- the changed files, and the standing.
pub record Facts : Type 0 where
  pub subject : String
  pub lane_commits : List String
  pub evidence : Evidence
  pub ident_text : String
  pub files : List String
  pub diff_sha : String
  pub diff0_sha : String
  pub ident_sha : String
  pub ident0_sha : String
  pub lock_sha : String
  pub all_zero : Bool

unfoldable pub ident_path : String → String
unfolding path_join take_chars
ident_path subject = path_join logs ("13-build-identity-" <> (take_chars 7 subject <> ".log"))

unfoldable pub diff_path : String → String
unfolding path_join take_chars
diff_path subject = path_join logs ("12-post-gate-" <> (take_chars 7 subject <> ".tracked.diff"))

unfoldable pub ident0_path : String
unfolding path_join
ident0_path = path_join logs "05-build-identity.log"

unfoldable pub diff0_path : String
unfolding path_join
diff0_path = path_join logs "post-test.tracked.diff"

-- r'^otp_release=.*$'
unfoldable pub otp_pattern : Regex
unfolding literal line_start line_end
otp_pattern = line_start ▸ literal "otp_release=" ▸ many (one line_char) ▸ line_end

-- A value in an f-string.
unfoldable pub shown_text : Option String → String
shown_text none = "None"
shown_text (some s) = s

unfoldable pub shown_exit : Option ℕ → String
unfolding decimal
shown_exit none = "None"
shown_exit (some n) = decimal n

unfoldable pub extra : String → Option String → List (String × Json)
extra key none = []
extra key (some s) = (key, text s) ∷ []

-- What `cmd` returns.
unfoldable pub command_json : Command → Json
unfolding object_of text_or_null exit_or_null shown_text extra
command_json c = object_of (
    ("cmd", text c.command)
    ∷ ("cwd", text_or_null c.entry.cwd)
    ∷ ("exit", exit_or_null c.entry.exit)
    ∷ (
      "summary",
      text (
          c.summary
          <> (" [head "
              <> (shown_text c.entry.head
                  <> ("; "
                      <> (shown_text c.entry.started_at
                          <> (" -> " <> (shown_text c.entry.ended_at <> "]"))))))),
    )
    ∷ ("output_sha256", text c.entry.output_sha256)
    ∷ ("log", text c.entry.path)
    ∷ (extra "role" c.role ++ extra "verdict" c.verdict))
