-- ===== src/Tests/Citations.antt =====
-- Inputs of `citation_check.py` and `evidence_check.py`: one pinned package with one cited file.
use ggen_igniter.Base.{
  ℕ, String, Option, none, some, List, [], ◌∷◌, true, ◌≡◌, refl, All, if◌then◌else◌, ◌==◌,
  string_eq,
}
use ggen_igniter.Base.Dict.{Dict}
use ggen_igniter.Base.Sort.{str_le}
use ggen_igniter.Citation.{Pin, Citation, no_symbol, citation_check}
use ggen_igniter.Citation.Laws.{IsReconciled, AreAnchored, citation_check_iff}
use ggen_igniter.Evidence.{Capability, evidence_check, references_of}
use ggen_igniter.Evidence.Laws.{IsResolved, evidence_check_iff}

abbrev install_file : String
install_file = "deps/ash/install.ex"

abbrev file_lines : String → Option (List String)
file_lines path =
    if path == install_file
    then some ("defmodule Install do" ∷ "  def igniter(i), do: i" ∷ "end" ∷ [])
    else none

abbrev ash_pins : Dict String Pin
ash_pins = ("ash_pin", record { dep = "ash"; version = "3.5.0" }) ∷ []

abbrev ash_lock : Dict String String
ash_lock = ("ash", "3.5.0") ∷ ("igniter", "0.6.0") ∷ []

abbrev install_citation : Citation
install_citation = record {
  id = "amp:install";
  file = install_file;
  line = some 1;
  end_literal = some 2;
  symbol = "def igniter";
  pin = "ash_pin";
}

one_line_short :
    (citation_check file_lines ash_pins "mix.lock"
      (some ash_lock)
      (record install_citation { end_literal = none } ∷ [])).misses
    ≡ no_symbol "amp:install" (some 1) (some 1) "def igniter" ∷ []
unfolding citation_check str_le
one_line_short = refl

citation_check_iff_example :
    ((d : Dict String String) × (some ash_lock ≡ some d) × IsReconciled d ash_pins)
    × AreAnchored file_lines ash_pins (install_citation ∷ [])
unfolding citation_check str_le
citation_check_iff_example =
    (citation_check_iff file_lines ash_pins "mix.lock" (some ash_lock) (install_citation ∷ [])).0
      refl

abbrev count_of : String → Option ℕ
count_of path = if path == install_file then some 3 else none

abbrev install_capability : Capability
install_capability = record {
  task = "ash.install";
  admitted = true;
  literals =
      (record { path = install_file; start = some 2; end_line = none }
        ∷ record { path = install_file; start = some 1; end_line = some 3 }
        ∷ [])
      ∷ [];
}

evidence_check_iff_example :
    All (λ cap. All (IsResolved count_of cap) (references_of cap)) (install_capability ∷ [])
unfolding evidence_check
evidence_check_iff_example = (evidence_check_iff count_of (install_capability ∷ [])).0 refl
