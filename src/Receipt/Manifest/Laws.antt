-- ===== src/Receipt/Manifest/Laws.antt =====
-- The dict of a manifest.
use ggen_igniter.Base.{
  String, Option, none, some, List, [], ◌∷◌, inl, inr, ◌==◌, Bool-cases, string_eq,
}
use ggen_igniter.Base.Dict.{Dict}
use ggen_igniter.Base.Dict.Items.{NodupKeys, insert-NodupKeys}
use ggen_igniter.Receipt.Manifest.{strip, partition_gap, add_line, add_lines, manifest_paths}

add_line-NodupKeys :
    (line : String) (out : Dict String String) → NodupKeys out → NodupKeys (add_line line out)
unfolding add_line
add_line-NodupKeys line out n = elim (Bool-cases (strip line == "")) [
  | inl p ↦ rw p n
  | inr p ↦ elim (Bool-cases (strip (partition_gap line).1 == "")) [
    | inl q ↦ rw (p, q) n
    | inr q ↦
        rw (p, q)
          (insert-NodupKeys (strip (partition_gap line).1) (strip (partition_gap line).0) out n)
  ]
]

add_lines-NodupKeys :
    (lines : List String) (out : Dict String String)
    → NodupKeys out
    → NodupKeys (add_lines lines out)
unfolding add_lines
add_lines-NodupKeys [] out n = n
add_lines-NodupKeys (line ∷ lines) out n =
    add_lines-NodupKeys lines (add_line line out) (add_line-NodupKeys line out n)

-- A manifest gives each path once.
pub manifest_paths-NodupKeys : (text : Option (List String)) → NodupKeys (manifest_paths text)
unfolding manifest_paths
manifest_paths-NodupKeys none = tt
manifest_paths-NodupKeys (some lines) = add_lines-NodupKeys lines [] tt
