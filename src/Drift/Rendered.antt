-- ===== src/Drift/Rendered.antt =====
-- `parse_rendered`, and the script from the two texts on.
use ggen_igniter.Base.{ℕ, String, List, map}
use ggen_igniter.Base.Text.{replace_from}
use ggen_igniter.Regex.{Regex, one, ◌▸◌, lazy, group, Match, find_all, group_of}
use ggen_igniter.Regex.Syntax.{
  literal, some_of, many, any_char, line_char, space_char, is_none_of, quoted,
}
use ggen_igniter.Turtle.{group_text}
use ggen_igniter.Drift.{Step, Finding}
use ggen_igniter.Drift.Parse.{parse_ontology}
use ggen_igniter.Drift.Main.{drift, exit_code}

-- r'task:\s*"([^"]+)",\s*\n\s*argv:\s*\[(.*?)\],\s*\n' with the flag S
step_pattern : Regex
unfolding literal is_none_of
step_pattern =
    literal "task:"
    ▸ many (one space_char)
    ▸ literal "\""
    ▸ group 1 (some_of (one (is_none_of "\"")))
    ▸ literal "\","
    ▸ many (one space_char)
    ▸ literal "\n"
    ▸ many (one space_char)
    ▸ literal "argv:"
    ▸ many (one space_char)
    ▸ literal "["
    ▸ group 2 (lazy (one any_char))
    ▸ literal "],"
    ▸ many (one space_char)
    ▸ literal "\n"

rendered_step : Match → Step
unfolding group_of group_text quoted find_all replace_from
rendered_step m = record {
  task = group_text (group_of 1 m);
  argv =
      map (λ a. replace_from "\\\"" "\"" 0 (group_text (group_of 1 a)))
        (find_all (quoted 1 line_char) (group_text (group_of 2 m)));
}

unfoldable pub parse_rendered : String → List Step
unfolding step_pattern rendered_step find_all
parse_rendered text = map rendered_step (find_all step_pattern text)

-- `main`: the findings and the exit code, of the texts of the ontology and of the rendered task.
unfoldable pub drift_check : String → String → List Finding
unfolding parse_ontology parse_rendered drift
drift_check ontology rendered = drift (parse_ontology ontology) (parse_rendered rendered)

unfoldable pub drift_exit : String → String → ℕ
unfolding parse_ontology parse_rendered exit_code
drift_exit ontology rendered = exit_code (parse_ontology ontology) (parse_rendered rendered)
