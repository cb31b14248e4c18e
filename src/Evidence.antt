-- ===== src/Evidence.antt =====
-- `main` of `priv/ggen/ash-manufacture-pack/bin/evidence_check.py`, from the references that
-- `references` finds in each `amp:evidence` literal on.
pub mod Laws
pub mod References
use ggen_igniter.Base.{
  ℕ, String, Option, none, some, List, [], ◌∷◌, ◌++◌, Bool, true, false, ◌&&◌, ◌||◌, flat_map,
  is_empty, ltb, length, filter, if◌then◌else◌,
}

-- A path, with the first and the last line where the reference names lines.
pub record Reference : Type 0 where
  pub path : String
  pub start : Option ℕ
  pub end_line : Option ℕ

-- A capability with the references of each of its literals.
pub record Capability : Type 0 where
  pub task : String
  pub admitted : Bool
  pub literals : List (List Reference)

pub data Problem : Type 0 where
  dangling : String → Problem
  cited_whole : String → String → ℕ → Problem
  outside : String → ℕ → ℕ → ℕ → Problem

pub record Report : Type 0 where
  pub citations_checked : ℕ
  pub whole_file_citations : ℕ
  pub problems : List Problem
  pub all_resolve : Bool
  pub exit : ℕ

range_problems : String → ℕ → ℕ → ℕ → List Problem
range_problems path first last total =
    if ltb first 1 || ltb total last then outside path first last total ∷ [] else []

-- `int(end or start)`
last_line : ℕ → Option ℕ → ℕ
last_line first none = first
last_line first (some last) = last

-- A reference into a file of `total` lines.
line_problems : Capability → Reference → ℕ → Option ℕ → List Problem
unfolding range_problems last_line
line_problems cap r total none = if cap.admitted then cited_whole cap.task r.path total ∷ [] else []
line_problems cap r total (some first) =
    range_problems r.path first (last_line first r.end_line) total

file_problems : Capability → Reference → Option ℕ → List Problem
unfolding line_problems
file_problems cap r none = dangling r.path ∷ []
file_problems cap r (some total) = line_problems cap r total r.start

-- The references of all literals, in order.
unfoldable pub references_of : Capability → List Reference
unfolding flat_map
references_of cap = flat_map (λ found. found) cap.literals

-- `count_lines` gives the number of lines of a file of the fixture, or `none` if there is no file.
module _ (count_lines : String → Option ℕ) where
  reference_problems : Capability → Reference → List Problem
  unfolding file_problems
  reference_problems cap r = file_problems cap r (count_lines r.path)

  -- A reference to a file that is there, without lines.
  is_bare : Option ℕ → Option ℕ → Bool
  is_bare (some total) none = true
  is_bare none start = false
  is_bare (some total) (some first) = false

  unfoldable pub evidence_check : List Capability → Report
  unfolding reference_problems is_bare references_of flat_map filter
  evidence_check caps =
      let problems = flat_map (λ cap. flat_map (reference_problems cap) (references_of cap)) caps in
      record {
        citations_checked = length (flat_map references_of caps);
        whole_file_citations = length (
            filter (λ (r : Reference). is_bare (count_lines r.path) r.start)
              (flat_map references_of caps));
        problems = problems;
        all_resolve = is_empty problems;
        exit = if is_empty problems then 0 else 1;
      }
