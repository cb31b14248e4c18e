-- ===== src/Tests/Parses.antt =====
-- The theorems on the parsers at texts of the shape that the pack writes.
use ggen_igniter.Base.Text.{split_on}
use ggen_igniter.Base.{
  map, All, ℕ, String, Option, some, none, List, [], ◌∷◌, ◌++◌, ◌≡◌, ◌↔◌, ◌⊎◌, refl,
}
use ggen_igniter.Base.Sort.{str_le}
use ggen_igniter.Conformance.Parse.{chunk_steps, parse_plan}
use ggen_igniter.Conformance.Parse.Laws.{LacksField, chunk_steps-eq-nil, parse_plan-eq-nil}
use ggen_igniter.Drift.Parse.{parse_ontology, facts}
use ggen_igniter.Drift.Parse.Laws.{IsReadable, parse_ontology_iff}
use ggen_igniter.Drift.Rendered.{drift_exit}
use ggen_igniter.Citation.Parse.{unescaped}
use ggen_igniter.Citation.Parse.Laws.{escaped, unescaped-escaped}
use ggen_igniter.Evidence.References.{Mark, references_from}
use ggen_igniter.Evidence.References.Laws.{reference_of, references_from-group}
use ggen_igniter.Receipt.Matrix.{lock_versions, capability_matrix}
use ggen_igniter.Tests.Patterns.{desk_ontology, desk_task, odd_ontology}

parse_ontology_iff_example :
    ((parse_ontology odd_ontology).parse_failures ≡ [])
    ↔ IsReadable odd_ontology (facts odd_ontology)
parse_ontology_iff_example = parse_ontology_iff odd_ontology

desk_exit : drift_exit desk_ontology desk_task ≡ 0
unfolding drift_exit str_le
desk_exit = refl

-- A chunk without a subject is dropped.
abbrev partial_chunk : String
partial_chunk = "phase: \"base\", step: \"domain\", task: \"ash.gen.domain\"},\n"

partial_dropped : chunk_steps partial_chunk ≡ []
unfolding chunk_steps
partial_dropped = refl

chunk_steps-eq-nil_example : (chunk_steps partial_chunk ≡ []) ↔ LacksField partial_chunk
chunk_steps-eq-nil_example = chunk_steps-eq-nil partial_chunk

-- A task whose one step has no subject.
abbrev partial_task : String
partial_task =
    "  @plan [\n    %{phase: \"base\", step: \"domain\", task: \"ash.gen.domain\"}\n  ]\n"

parse_plan-eq-nil_example :
    (parse_plan partial_task ≡ []) ↔ All LacksField (split_on "%{" 0 partial_task)
parse_plan-eq-nil_example = parse_plan-eq-nil partial_task

abbrev desk_path_mark : Mark
desk_path_mark = record {
  path = some "deps/ash/a.ex";
  begin = 0;
  end_pos = 16;
  first = some "1";
  last = some "2";
}

abbrev desk_cont_mark : Mark
desk_cont_mark = record { path = none; begin = 18; end_pos = 20; first = some "7"; last = none }

abbrev desk_next_mark : Mark
desk_next_mark = record {
  path = some "deps/ash/b.ex";
  begin = 30;
  end_pos = 44;
  first = none;
  last = none;
}

references_from-group_example :
    (references_from none (desk_cont_mark ∷ desk_next_mark ∷ [])
      ≡ references_from none (desk_next_mark ∷ []))
    × (references_from
          (some "deps/spark/c.ex")
          (desk_path_mark ∷ desk_cont_mark ∷ desk_next_mark ∷ [])
        ≡ map (reference_of "deps/ash/a.ex") (desk_path_mark ∷ desk_cont_mark ∷ [])
          ++ references_from (some "deps/ash/a.ex") (desk_next_mark ∷ []))
references_from-group_example =
    references_from-group (some "deps/spark/c.ex") desk_path_mark (desk_cont_mark ∷ [])
      (desk_next_mark ∷ []) refl (refl, tt)

versions_read :
    lock_versions
      (some "%{\n  \"ash\": {:hex, :ash, \"3.5.1\", \"9f86\"},\n  \"spark\": {:git, \"x\"}\n}\n")
    ≡ ("ash", "3.5.1") ∷ []
unfolding lock_versions
versions_read = refl

matrix_read :
    capability_matrix
      "amp:GenDomain a amp:GeneratorCapability ;\n  amp:mixTask \"ash.gen.domain\" ;\n  amp:standing \"ALIVE\" ;\n  amp:admitted true .\n"
    ≡ (
      "ash.gen.domain",
      record {
        standing = "ALIVE";
        admitted = some ggen_igniter.Base.true;
        phase = none;
        refusal_reason = none;
      },
    )
      ∷ []
unfolding capability_matrix
matrix_read = refl

abbrev regex_symbol : String
regex_symbol = "~r/\\\"[^\\\"]*\\\\\"/"

unescaped-escaped_example : unescaped "citesSymbol" (some (escaped regex_symbol)) ≡ regex_symbol
unescaped-escaped_example = unescaped-escaped "citesSymbol" regex_symbol

-- The order of the replacements: a quote after an escaped backslash.
symbol_escaped : escaped "a\\\"" ≡ "a\\\\\\\""
unfolding escaped
symbol_escaped = refl
