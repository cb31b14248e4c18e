-- ===== src/Drift/Argv.antt =====
-- Reading an argv: `values_after` and `enum_values_in_argv`.
use ggen_igniter.Base.{String, Option, none, some, List, [], ◌∷◌, if◌then◌else◌, ◌==◌, string_eq}
use ggen_igniter.Base.Text.{is_prefix, split}

-- `[argv[i + 1] for i, a in enumerate(argv) if a == flag and i + 1 < len(argv)]`
unfoldable pub values_after : String → List String → List String
values_after flag [] = []
values_after flag (a ∷ []) = []
values_after flag (a ∷ b ∷ argv) =
    let rest = values_after flag (b ∷ argv) in if a == flag then b ∷ rest else rest

-- `none` if there is no second positional, else the fields of its csv.
unfoldable pub enum_values_in_argv : List String → Option (List String)
unfolding is_prefix split
enum_values_in_argv [] = none
enum_values_in_argv (a ∷ []) = none
enum_values_in_argv (a ∷ b ∷ argv) = if is_prefix "--" b then none else some (split b',' b)
