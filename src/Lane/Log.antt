-- ===== src/Lane/Log.antt =====
-- A step log, as `summarize` of steplog.py reads it, and `parse`, `line`, `lines` and `failing` of
-- R1-GI-PIN.logs/build_receipt.py.
use ggen_igniter.Base.{ℕ, String, Option, none, some, List, [], ◌∷◌, map, flat_map}
use ggen_igniter.Base.Text.{int_from, strip}
use ggen_igniter.Regex.{Regex, one, ◌▸◌, either, group, Match, search, find_all, group_of}
use ggen_igniter.Regex.Syntax.{
  literal, some_of, many, maybe, times, digit_char, space_char, non_space_char, line_char,
  line_start, line_end, is_any_of,
}

-- r"^# cwd=(\S+) head=([0-9a-f]{40}) started=(\S+)" with the flag M
head_pattern : Regex
unfolding literal line_start is_any_of
head_pattern =
    line_start
    ▸ literal "# cwd="
    ▸ group 1 (some_of (one non_space_char))
    ▸ literal " head="
    ▸ group 2 (times 40 (one (is_any_of "0123456789abcdef")))
    ▸ literal " started="
    ▸ group 3 (some_of (one non_space_char))

-- r"^# cmd=(.*)$"
cmd_pattern : Regex
unfolding literal line_start line_end
cmd_pattern = line_start ▸ literal "# cmd=" ▸ group 1 (many (one line_char)) ▸ line_end

-- r"^# ended=(\S+) exit=(\d+)"
end_pattern : Regex
unfolding literal line_start
end_pattern =
    line_start
    ▸ literal "# ended="
    ▸ group 1 (some_of (one non_space_char))
    ▸ literal " exit="
    ▸ group 2 (some_of (one digit_char))

-- `m.group(n) if m else None`
group_if : ℕ → Option Match → Option String
unfolding group_of
group_if n none = none
group_if n (some m) = group_of n m

-- `int(end.group(2)) if end else None`
exit_if : Option String → Option ℕ
unfolding int_from
exit_if none = none
exit_if (some digits) = some (int_from 0 digits)

pub record Log : Type 0 where
  pub text : String
  pub cwd : Option String
  pub head : Option String
  pub started_at : Option String
  pub ended_at : Option String
  pub exit : Option ℕ
  pub output_sha256 : String
  pub path : String

-- `parse`, of the bytes of a log as a text, and of their digest.
unfoldable pub log_of : (String → String) → String → String → Log
unfolding head_pattern end_pattern search group_if exit_if
log_of sha256 path text =
    let head = search head_pattern text in
    let end_match = search end_pattern text in
    record {
      text = text;
      cwd = group_if 1 head;
      head = group_if 2 head;
      started_at = group_if 3 head;
      ended_at = group_if 1 end_match;
      exit = exit_if (group_if 2 end_match);
      output_sha256 = sha256 text;
      path = path;
    }

unfoldable pub stripped : Option Match → String
unfolding strip
stripped none = "(line not found)"
stripped (some m) = strip m.whole

-- `line(text, pattern)`
unfoldable pub line : String → Regex → String
unfolding search stripped
line text pattern = stripped (search pattern text)

-- `lines(text, pattern)`
unfoldable pub lines : String → Regex → List String
unfolding find_all strip
lines text pattern = map (λ (m : Match). strip m.whole) (find_all pattern text)

-- `failing(entry)`: r"^\s+\d+\) test .*$"
unfoldable pub failing : Log → List String
unfolding lines literal line_start line_end
failing entry = lines entry.text (
    line_start
    ▸ some_of (one space_char)
    ▸ some_of (one digit_char)
    ▸ literal ") test "
    ▸ many (one line_char)
    ▸ line_end)

rest_of_line : Regex
unfolding line_end
rest_of_line = many (one line_char) ▸ line_end

-- The patterns of the key lines.
key_patterns : List Regex
unfolding literal line_start line_end rest_of_line
key_patterns =
    (line_start ▸ literal "Elixir " ▸ one digit_char ▸ rest_of_line)
    ∷ (line_start ▸ literal "Finished in " ▸ rest_of_line)
    ∷ either
        (line_start
          ▸ some_of (one digit_char)
          ▸ literal " doctest"
          ▸ maybe (literal "s")
          ▸ rest_of_line)
        (either
          (line_start
            ▸ some_of (one digit_char)
            ▸ literal " test"
            ▸ maybe (literal "s")
            ▸ literal ","
            ▸ rest_of_line)
          (line_start ▸ some_of (one digit_char) ▸ literal " properties" ▸ rest_of_line))
    ∷ (many (one line_char) ▸ literal "mods/funs" ▸ rest_of_line)
    ∷ (line_start ▸ literal "Generated ggen_igniter app" ▸ line_end)
    ∷ (line_start ▸ literal "** (" ▸ rest_of_line)
    ∷ (line_start ▸ literal "The following files are not formatted" ▸ rest_of_line)
    ∷ []

-- `summarize`: what `parse` reads, with the command and the key lines.
pub record Summary : Type 0 where
  pub entry : Log
  pub cmd : Option String
  pub key_lines : List String

unfoldable pub summarize : (String → String) → String → String → Summary
unfolding log_of cmd_pattern key_patterns search group_if lines flat_map
summarize sha256 path text = record {
  entry = log_of sha256 path text;
  cmd = group_if 1 (search cmd_pattern text);
  key_lines = flat_map (lines text) key_patterns;
}
