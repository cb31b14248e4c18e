-- ===== src/Receipt/Manifest.antt =====
-- `manifest_paths`: the text of a `shasum -a 256` manifest as a dict from path to hash. Whitespace is
-- that of ASCII.
pub mod Laws
use Prim.Native.Char.{code}
use ggen_igniter.Base.{
  ℕ, String, Option, none, some, List, [], ◌∷◌, Bool, true, false, ◌&&◌, ◌||◌, leb, nat_beq,
  if◌then◌else◌, ◌==◌, string_eq,
}
use ggen_igniter.Base.Dict.{Dict, insert}

unfoldable pub is_space : ℕ → Bool
is_space c = nat_beq c 32 || (leb 9 c && leb c 13) || (leb 28 c && leb c 31)

unfoldable pub lstrip : String → String
unfolding is_space
lstrip String.[] = ""
lstrip (String.◌∷◌ c s) = if is_space (code c) then lstrip s else String.◌∷◌ c s

unfoldable pub rstrip : String → String
unfolding is_space
rstrip String.[] = ""
rstrip (String.◌∷◌ c s) =
    let rest = rstrip s in if rest == "" && is_space (code c) then "" else String.◌∷◌ c rest

-- `s.strip()`
abbrev pub strip : String → String
strip s = lstrip (rstrip s)

-- `s.partition("  ")`, without its middle: what stands before and after the first two spaces.
unfoldable pub partition_gap : String → String × String
partition_gap String.[] = ("", "")
partition_gap (String.◌∷◌ c String.[]) = (String.◌∷◌ c "", "")
partition_gap (String.◌∷◌ c (String.◌∷◌ d s)) =
    let rest = partition_gap (String.◌∷◌ d s) in
    if nat_beq (code c) 32 && nat_beq (code d) 32 then ("", s) else (String.◌∷◌ c rest.0, rest.1)

-- The body of the loop over the lines.
unfoldable pub add_line : String → Dict String String → Dict String String
unfolding lstrip rstrip partition_gap insert
add_line line out =
    let parts = partition_gap line in
    if strip line == ""
    then out
    else if strip parts.1 == ""
    then out
    else insert (strip parts.1) (strip parts.0) out

add_lines : List String → Dict String String → Dict String String
unfolding add_line
add_lines [] out = out
add_lines (line ∷ lines) out = add_lines lines (add_line line out)

-- The lines of the file without their ends, or `none` if there is no file.
unfoldable pub manifest_paths : Option (List String) → Dict String String
unfolding add_lines
manifest_paths none = []
manifest_paths (some lines) = add_lines lines []
