-- ===== src/Turtle.antt =====
-- What the scripts' parsers of `ontology.ttl` share: the blocks of a class, and the references and the
-- literals of a block.
use Prim.Native.String.{◌++◌ as ◌<>◌}
use ggen_igniter.Base.{String, Option, none, some, List, Bool, map, ◌==◌, string_eq, option_eq}
use ggen_igniter.Regex.{Regex, one, ◌▸◌, either, lazy, group, Match, search, find_all, group_of}
use ggen_igniter.Regex.Syntax.{literal, some_of, many, any_char, word_char, is_none_of, quoted}

-- `m.group(n)`, of a group on every way through the pattern
unfoldable pub group_text : Option String → String
group_text none = ""
group_text (some s) = s

-- r"amp:(\w+) a amp:%s ;(.*?)\.\n" with the flag S
block_pattern : String → Regex
unfolding literal
block_pattern cls =
    literal "amp:"
    ▸ group 1 (some_of (one word_char))
    ▸ literal (" a amp:" <> (cls <> " ;"))
    ▸ group 2 (lazy (one any_char))
    ▸ literal ".\n"

-- `blocks(text, cls)`: the names and the blocks.
unfoldable pub blocks : String → String → List (String × String)
unfolding block_pattern find_all group_of group_text
blocks text cls =
    map (λ m. (group_text (group_of 1 m), group_text (group_of 2 m)))
      (find_all (block_pattern cls) text)

missing : String → String
missing prop = "<MISSING:" <> (prop <> ">")

text_or_missing : String → Option Match → String
unfolding group_of group_text missing
text_or_missing prop none = missing prop
text_or_missing prop (some m) = group_text (group_of 1 m)

-- r'amp:%s "([^"]*)"', or the sentinel
unfoldable pub plain_literal : String → String → String
unfolding literal is_none_of search text_or_missing
plain_literal block prop = text_or_missing prop (
    search
      (literal ("amp:" <> (prop <> " \"")) ▸ group 1 (many (one (is_none_of "\""))) ▸ literal "\"")
      block)

-- `ref(block, prop)`: r"amp:%s (amp:\w+)", or the sentinel
unfoldable pub ref : String → String → String
unfolding literal search text_or_missing
ref block prop = text_or_missing prop (
    search (literal ("amp:" <> (prop <> " ")) ▸ group 1 (literal "amp:" ▸ some_of (one word_char)))
      block)

-- r'amp:%s "((?:[^"\\]|\\.)*)"' with the flag S, still escaped, or the sentinel and `none`
unfoldable pub escaped_literal : String → String → Option String
unfolding literal quoted search group_of
escaped_literal block prop =
    elim (search (literal ("amp:" <> (prop <> " ")) ▸ quoted 1 any_char) block) [
      | none ↦ none
      | some m ↦ group_of 1 m
    ]

-- Whether r"amp:%s (true|false)" is found, and reads "true".
unfoldable pub truth : String → String → Option Bool
unfolding literal search group_of
truth block prop =
    elim (search
      (literal ("amp:" <> (prop <> " ")) ▸ group 1 (either (literal "true") (literal "false")))
      block) [ none ↦ none | some m ↦ some (group_of 1 m == some "true") ]
