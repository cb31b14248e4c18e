-- ===== src/Citation/Parse.antt =====
-- `parse_pins`, `parse_citations` and `parse_lock`.
pub mod Laws
use Prim.Native.String.{◌++◌ as ◌<>◌}
use ggen_igniter.Base.{ℕ, String, Option, none, some, List, [], ◌∷◌, map, flat_map, string_eq}
use ggen_igniter.Base.Dict.{Dict, insert_all}
use ggen_igniter.Base.Text.{replace_from, int_from}
use ggen_igniter.Regex.{Regex, one, ◌▸◌, group, Match, search, match_at, start, group_of}
use ggen_igniter.Regex.Syntax.{
  literal, some_of, many, digit_char, word_char, space_char, is_none_of,
}
use ggen_igniter.Turtle.{group_text, blocks, escaped_literal, ref}
use ggen_igniter.Citation.{Pin, Citation, Report, citation_check}

unfoldable pub unescaped : String → Option String → String
unfolding replace_from
unescaped prop none = "<MISSING:" <> (prop <> ">")
unescaped prop (some s) = replace_from "\\\\" "\\" 0 (replace_from "\\\"" "\"" 0 s)

-- `literal(block, prop)`
literal_of : String → String → String
unfolding unescaped escaped_literal
literal_of block prop = unescaped prop (escaped_literal block prop)

number_of : Option Match → Option ℕ
unfolding int_from group_text group_of
number_of none = none
number_of (some m) = some (int_from 0 (group_text (group_of 1 m)))

-- `integer(block, prop)`
integer : String → String → Option ℕ
unfolding literal search number_of
integer block prop =
    number_of
      (search (literal ("amp:" <> (prop <> " ")) ▸ group 1 (some_of (one digit_char))) block)

unfoldable pub parse_pins : String → Dict String Pin
unfolding insert_all blocks literal_of
parse_pins text = insert_all [] (
    map
      (λ (b : String × String). (
        "amp:" <> b.0,
        record { dep = literal_of b.1 "pinnedDep"; version = literal_of b.1 "pinnedVersion" },
      ))
      (blocks text "DependencyPin"))

citation_of : String × String → Citation
unfolding literal_of integer ref
citation_of (name, block) = record {
  id = "amp:" <> name;
  file = literal_of block "citesFile";
  line = integer block "citesLine";
  end_literal = integer block "citesEndLine";
  symbol = literal_of block "citesSymbol";
  pin = ref block "citesPin";
}

unfoldable pub parse_citations : String → List Citation
unfolding citation_of blocks
parse_citations text = map citation_of (blocks text "Citation")

-- `LOCK_ENTRY`
lock_pattern : Regex
unfolding literal is_none_of
lock_pattern =
    many (one space_char)
    ▸ literal "\""
    ▸ group 1 (some_of (one word_char))
    ▸ literal "\":"
    ▸ many (one space_char)
    ▸ literal "{:hex,"
    ▸ many (one space_char)
    ▸ literal ":"
    ▸ some_of (one word_char)
    ▸ literal ","
    ▸ many (one space_char)
    ▸ literal "\""
    ▸ group 2 (some_of (one (is_none_of "\"")))
    ▸ literal "\""

lock_entry : Option Match → List (String × String)
unfolding group_text group_of
lock_entry none = []
lock_entry (some m) = (group_text (group_of 1 m), group_text (group_of 2 m)) ∷ []

-- The lines of the file, or `none` if there is no file.
unfoldable pub parse_lock : Option (List String) → Option (Dict String String)
unfolding lock_pattern lock_entry match_at insert_all flat_map
parse_lock none = none
parse_lock (some lines) =
    some (insert_all [] (flat_map (λ l. lock_entry (match_at lock_pattern (start l))) lines))

-- `main`, of the text of the ontology and the lines of the lock file. `read` gives the lines of a
-- file of the fixture.
unfoldable pub citation_report :
    (String → Option (List String)) → String → Option (List String) → String → Report
unfolding parse_pins parse_citations parse_lock citation_check
citation_report read lock_path lock text =
    citation_check read (parse_pins text) lock_path (parse_lock lock) (parse_citations text)
