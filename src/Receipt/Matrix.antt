-- ===== src/Receipt/Matrix.antt =====
-- What `main` and `lock_versions` of receipt.py read of texts: the capability matrix and the locked
-- versions.
use ggen_igniter.Base.{
  String, Option, none, some, List, [], ◌∷◌, ◌||◌, Bool, map, flat_map, string_eq,
}
use ggen_igniter.Base.Dict.{Dict, insert_all}
use ggen_igniter.Regex.{Regex, one, ◌▸◌, group, Match, find_all, group_of}
use ggen_igniter.Regex.Syntax.{literal, some_of, digit_char, is_none_of, is_any_of}
use ggen_igniter.Turtle.{group_text, escaped_literal, truth}
use ggen_igniter.Conformance.Parse.{capability_pattern, non_empty_literal}

-- `[a-z_0-9]+`
lock_name : Regex
unfolding is_any_of
lock_name = some_of (one (λ c. is_any_of "abcdefghijklmnopqrstuvwxyz_" c || digit_char c))

-- r'"([a-z_0-9]+)": \{:hex, :[a-z_0-9]+, "([^"]+)"'
hex_pattern : Regex
unfolding literal lock_name is_none_of
hex_pattern =
    literal "\""
    ▸ group 1 lock_name
    ▸ literal "\": {:hex, :"
    ▸ lock_name
    ▸ literal ", \""
    ▸ group 2 (some_of (one (is_none_of "\"")))
    ▸ literal "\""

lock_entry : Match → String × String
unfolding group_of group_text
lock_entry m = (group_text (group_of 1 m), group_text (group_of 2 m))

-- `lock_versions`, of the text of mix.lock, if it is there.
unfoldable pub lock_versions : Option String → Dict String String
unfolding hex_pattern lock_entry find_all insert_all
lock_versions none = []
lock_versions (some text) = insert_all [] (map lock_entry (find_all hex_pattern text))

-- A row of the capability matrix.
pub record Row : Type 0 where
  pub standing : String
  pub admitted : Option Bool
  pub phase : Option String
  pub refusal_reason : Option String

standing_or_unknown : Option String → String
standing_or_unknown none = "UNKNOWN"
standing_or_unknown (some standing) = standing

row_of : String → Option String → List (String × Row)
unfolding standing_or_unknown non_empty_literal truth escaped_literal
row_of block none = []
row_of block (some task) =
    (
      task,
      record {
        standing = standing_or_unknown (non_empty_literal "standing" block);
        admitted = truth block "admitted";
        phase = non_empty_literal "phase" block;
        refusal_reason = escaped_literal block "refusalReason";
      },
    )
    ∷ []

-- `caps`
unfoldable pub capability_matrix : String → Dict String Row
unfolding row_of non_empty_literal capability_pattern find_all group_of group_text insert_all
    flat_map
capability_matrix ttl = insert_all [] (
    flat_map
      (λ m.
        row_of (group_text (group_of 1 m))
          (non_empty_literal "mixTask" (group_text (group_of 1 m))))
      (find_all capability_pattern ttl))
