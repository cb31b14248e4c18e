-- ===== src/Conformance/Parse.antt =====
-- `parse_admitted` and `parse_plan`.
pub mod Laws
use Prim.Native.String.{◌++◌ as ◌<>◌}
use ggen_igniter.Base.{
  String, Option, none, some, List, [], ◌∷◌, ◌++◌, Bool, true, false, map, flat_map, string_eq,
}
use ggen_igniter.Base.Dict.{Dict, insert_all}
use ggen_igniter.Base.Text.{split_on}
use ggen_igniter.Regex.{Regex, one, ◌▸◌, either, group, lazy, Match, search, find_all, group_of}
use ggen_igniter.Regex.Syntax.{
  literal, some_of, many, any_char, word_char, space_char, is_none_of, line_start,
}
use ggen_igniter.Turtle.{group_text, truth}
use ggen_igniter.Conformance.{Step, Capability}

group_one : Option Match → Option String
unfolding group_of
group_one none = none
group_one (some m) = group_of 1 m

-- r'amp:%s "([^"]+)"', in a block
unfoldable pub non_empty_literal : String → String → Option String
unfolding literal is_none_of search group_one
non_empty_literal prop block = group_one (
    search
      (literal ("amp:" <> (prop <> " \""))
        ▸ group 1 (some_of (one (is_none_of "\"")))
        ▸ literal "\"")
      block)

capability_entry : Option String → Option Bool → Option String → List (String × Capability)
capability_entry none admitted phase = []
capability_entry (some task) none phase = []
capability_entry (some task) (some admitted) phase =
    (task, record { admitted = admitted; phase = phase }) ∷ []

-- The body of the loop over the blocks.
block_entry : String → List (String × Capability)
unfolding non_empty_literal truth capability_entry
block_entry block =
    capability_entry (non_empty_literal "mixTask" block) (truth block "admitted")
      (non_empty_literal "phase" block)

-- r"amp:\w+ a amp:GeneratorCapability ;(.*?)\.\n" with the flag S
unfoldable pub capability_pattern : Regex
unfolding literal
capability_pattern =
    literal "amp:"
    ▸ some_of (one word_char)
    ▸ literal " a amp:GeneratorCapability ;"
    ▸ group 1 (lazy (one any_char))
    ▸ literal ".\n"

unfoldable pub parse_admitted : String → Dict String Capability
unfolding capability_pattern block_entry find_all group_of group_text insert_all flat_map
parse_admitted text =
    insert_all []
      (flat_map (λ m. block_entry (group_text (group_of 1 m))) (find_all capability_pattern text))

-- `_field(name)`: r'(?:[{,]|^)\s*%s:\s*"([^"]*)"' with the flag M
unfoldable pub field : String → Regex
unfolding literal is_none_of line_start
field name =
    either (either (literal "{") (literal ",")) line_start
    ▸ many (one space_char)
    ▸ literal (name <> ":")
    ▸ many (one space_char)
    ▸ literal "\""
    ▸ group 1 (many (one (is_none_of "\"")))
    ▸ literal "\""

-- `found` of a chunk, as a step if it has the four fields.
step_of : Option String → Option String → Option String → Option String → List Step
step_of (some phase) (some step) (some task) (some subject) =
    record { phase = phase; step = step; task = task; subject = subject } ∷ []
step_of none step task subject = []
step_of (some phase) none task subject = []
step_of (some phase) (some step) none subject = []
step_of (some phase) (some step) (some task) none = []

field_of : String → String → Option String
unfolding field search group_one
field_of chunk name = group_one (search (field name) chunk)

-- The body of the loop over the chunks.
unfoldable pub chunk_steps : String → List Step
unfolding step_of field_of
chunk_steps chunk =
    step_of (field_of chunk "phase") (field_of chunk "step") (field_of chunk "task")
      (field_of chunk "subject")

unfoldable pub parse_plan : String → List Step
unfolding chunk_steps flat_map split_on
parse_plan text = flat_map chunk_steps (split_on "%{" 0 text)
