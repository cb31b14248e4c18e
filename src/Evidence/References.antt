-- ===== src/Evidence/References.antt =====
-- `references` and the reading of the capabilities.
pub mod Laws
use Prim.Native.String.{◌++◌ as ◌<>◌}
use ggen_igniter.Base.{
  ℕ, String, Option, none, some, List, [], ◌∷◌, ◌++◌, Bool, true, false, ◌&&◌, ◌||◌, any, filter,
  map, leb, ltb, not, is_empty, if◌then◌else◌, ◌==◌, string_eq,
}
use ggen_igniter.Base.Sort.{sort}
use ggen_igniter.Base.Text.{int_from, has_char}
use ggen_igniter.Regex.{Regex, one, at, ◌▸◌, either, group, Match, search, find_all, group_of}
use ggen_igniter.Regex.Syntax.{
  literal, some_of, many, maybe, any_char, digit_char, word_char, is_none_of, is_any_of, not_after,
  quoted,
}
use ggen_igniter.Turtle.{group_text, blocks}
use ggen_igniter.Evidence.{Reference, Capability, Report, evidence_check}

-- `(?::(\d+)(?:-(\d+))?)`, with the numbers of its groups
lines_pattern : ℕ → ℕ → Regex
unfolding literal
lines_pattern n k =
    literal ":"
    ▸ group n (some_of (one digit_char))
    ▸ maybe (literal "-" ▸ group k (some_of (one digit_char)))

-- `CITATION`
citation_pattern : Regex
unfolding literal lines_pattern is_any_of
citation_pattern =
    group 1 (
      literal "deps/"
      ▸ some_of (one (λ c. word_char c || is_any_of "./-" c))
      ▸ literal "."
      ▸ either (literal "ex") (either (literal "exs") (either (literal "erl") (literal "rs"))))
    ▸ maybe (lines_pattern 2 3)

-- `CONTINUATION`
continuation_pattern : Regex
unfolding not_after lines_pattern is_any_of
continuation_pattern = not_after (λ c. word_char c || is_any_of "./-" c) ▸ lines_pattern 1 2

-- An entry of `marks`: the path of a "path", or `none` for a "cont", with its span and its lines.
pub record Mark : Type 0 where
  pub path : Option String
  pub begin : ℕ
  pub end_pos : ℕ
  pub first : Option String
  pub last : Option String

path_mark : Match → Mark
unfolding group_of group_text
path_mark m = record {
  path = some (group_text (group_of 1 m));
  begin = m.begin;
  end_pos = m.end_pos;
  first = group_of 2 m;
  last = group_of 3 m;
}

cont_mark : Match → Mark
unfolding group_of
cont_mark m = record {
  path = none;
  begin = m.begin;
  end_pos = m.end_pos;
  first = group_of 1 m;
  last = group_of 2 m;
}

-- `any(s <= m.start() < e for _, s, e, _ in marks)`
is_covered : List Mark → ℕ → Bool
unfolding any
is_covered marks pos = any (λ (k : Mark). leb k.begin pos && ltb pos k.end_pos) marks

-- The loop over the continuations.
add_continuations : List Mark → List Match → List Mark
unfolding is_covered cont_mark
add_continuations marks [] = marks
add_continuations marks (m ∷ ms) =
    if is_covered marks m.begin
    then add_continuations marks ms
    else add_continuations (marks ++ (cont_mark m ∷ [])) ms

marks_of : String → List Mark
unfolding citation_pattern continuation_pattern path_mark find_all add_continuations sort
marks_of literal_text =
    sort (λ (j k : Mark). leb j.begin k.begin)
      (add_continuations (map path_mark (find_all citation_pattern literal_text))
        (find_all continuation_pattern literal_text))

unfoldable pub int_of : Option String → Option ℕ
unfolding int_from
int_of none = none
int_of (some s) = some (int_from 0 s)

unfoldable pub reference_to : String → Mark → Reference
unfolding int_of
reference_to path k = record { path = path; start = int_of k.first; end_line = int_of k.last }

-- The path that a mark is resolved against: its own, or the most recent one.
unfoldable pub path_at : Option String → Option String → Option String
path_at (some path) current = some path
path_at none current = current

unfoldable pub reference_at : Option String → Mark → List Reference
unfolding reference_to
reference_at none k = []
reference_at (some path) k = reference_to path k ∷ []

-- The loop over the sorted marks, with `current`.
unfoldable pub references_from : Option String → List Mark → List Reference
unfolding reference_at path_at
references_from current [] = []
references_from current (k ∷ ks) =
    reference_at (path_at k.path current) k ++ references_from (path_at k.path current) ks

unfoldable pub references : String → List Reference
unfolding marks_of references_from
references literal_text = references_from none (marks_of literal_text)

found_text : Option Match → Option String
unfolding group_of
found_text none = none
found_text (some m) = group_of 1 m

task_or : String → Option String → String
task_or name none = "amp:" <> name
task_or name (some task) = task

is_found : Option Match → Bool
is_found none = false
is_found (some m) = true

-- The body of the loop over the capabilities, up to the references.
capability_of_block : String × String → Capability
unfolding task_or found_text is_found literal is_none_of search quoted find_all references group_of
    group_text
capability_of_block (name, block) = record {
  task = task_or name (
      found_text (
        search (literal "amp:mixTask \"" ▸ group 1 (some_of (one (is_none_of "\""))) ▸ literal "\"")
          block));
  admitted = is_found (search (literal "amp:admitted true") block);
  literals =
      map (λ m. references (group_text (group_of 1 m)))
        (find_all (literal "amp:evidence " ▸ quoted 1 any_char) block);
}

parse_capabilities : String → List Capability
unfolding capability_of_block blocks
parse_capabilities text = map capability_of_block (blocks text "GeneratorCapability")

-- `main`, of the text of the ontology.
unfoldable pub evidence_report : (String → Option ℕ) → String → Report
unfolding parse_capabilities evidence_check
evidence_report count_lines text = evidence_check count_lines (parse_capabilities text)
