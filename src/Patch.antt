-- ===== src/Patch.antt =====
-- `scripts/forbid_generated_output_dir_once.py`: the files are a dict from path to text, which the
-- script reads and writes.
pub mod Texts
pub mod Laws
pub mod Files
pub mod Chains
pub mod Again
use Prim.Native.String.{◌++◌ as ◌<>◌}
use ggen_igniter.Base.{String, Option, none, some, List, [], ◌∷◌, Bool, true, false, string_eq}
use ggen_igniter.Base.Dict.{Dict, insert, lookup}
use ggen_igniter.Base.Text.{is_infix, replace_from, replace_first, strip}
use ggen_igniter.Patch.Texts.{
  doc_anchor, policy_doc, write_new_file, write_file, inject_anchor, inject_with_guard,
  helper_anchor, helpers, render_anchor, render_preflight, admit_docs_old, admit_docs_new,
  write_pending_anchor, write_pending_with_generated, cond_anchor, cond_generated, describe_anchor,
  describe_generated, plan_docs_old, plan_docs_new, policy_test,
}

-- A text, or the message of a `SystemExit`.
pub data Edit : Type 0 where
  edited refused : String → Edit

-- `if shown not in text: if old not in text: raise SystemExit(message); text = text.replace(old, new, 1)`
unfoldable pub amend : String → String → String → String → String → Edit
unfolding is_infix replace_first
amend shown old new message text = elim (is_infix shown text) [
  | true ↦ edited text
  | false ↦ elim (is_infix old text) [
    | true ↦ edited (replace_first old new text)
    | false ↦ refused message
  ]
]

unfoldable pub replace_once : String → String → String → String → Edit
unfolding amend
replace_once text old new label = amend new old new ("anchor not found: " <> label) text

-- The statements that follow an edit.
infixl 5 ◌>>=◌
abbrev pub ◌>>=◌ : Edit → (String → Edit) → Edit
edited text >>= next = next text
refused message >>= next = refused message

-- The loop over the signatures.
unfoldable pub guard_signatures : List String → String → Edit
unfolding amend strip
guard_signatures [] actuate = edited actuate
guard_signatures (signature ∷ signatures) actuate = do
  guarded ←
      amend (signature <> "    admit_output_path!(path)\n") signature
        (signature <> "    admit_output_path!(path)\n")
        ("actuate function anchor not found: " <> strip signature) actuate
  guard_signatures signatures guarded

unfoldable pub patch_actuate : String → Edit
unfolding amend guard_signatures inject_with_guard
patch_actuate actuate = do
  documented ←
      amend policy_doc doc_anchor (policy_doc <> doc_anchor) "actuate moduledoc anchor not found"
        actuate
  guarded ← guard_signatures (write_new_file ∷ write_file ∷ []) documented
  injected ←
      amend inject_with_guard inject_anchor inject_with_guard
        "actuate function anchor not found: inject_content!/5" guarded
  amend helpers helper_anchor (helpers <> helper_anchor) "actuate helper anchor not found" injected

-- The examples of the antipattern, in the order of the replacements.
unfoldable pub rename_examples : String → String
unfolding replace_from
rename_examples sync =
    let a =
      replace_from "lib/generated/<%= module_name %>.ex"
        "lib/<%= Macro.underscore(module_name) %>.ex" 0 sync in
    let b = replace_from "lib/generated/Multi.Alpha.ex" "lib/multi/alpha.ex" 0 a in
    let c = replace_from "lib/generated/Multi.Beta.ex" "lib/multi/beta.ex" 0 b in
    let d = replace_from "lib/generated/Multi.Gamma.ex" "lib/multi/gamma.ex" 0 c in
    let e = replace_from "lib/generated/resource.ex" "lib/my_app/resources/resource.ex" 0 d in
    replace_from "lib/generated.ex" "lib/my_app/extension.ex" 0 e

unfoldable pub patch_sync : String → Edit
unfolding amend rename_examples render_preflight
patch_sync sync = do
  preflighted ←
      amend render_preflight render_anchor render_preflight "sync renders anchor not found" sync
  edited (rename_examples preflighted)

unfoldable pub patch_reactor : String → Edit
unfolding amend replace_once write_pending_with_generated
patch_reactor reactor = do
  documented ← replace_once reactor admit_docs_old admit_docs_new "reactor admit docs"
  pending ←
      amend write_pending_with_generated write_pending_anchor write_pending_with_generated
        "reactor write_pending anchor not found" documented
  refusing ← replace_once pending cond_anchor cond_generated "reactor admission cond"
  described ←
      amend describe_generated describe_anchor (describe_generated <> describe_anchor)
        "reactor describe_failure anchor not found" refusing
  replace_once described plan_docs_old plan_docs_new "reactor plan refusal docs"

unfoldable pub patch_readme : String → Edit
unfolding replace_from
patch_readme readme =
    let a =
      replace_from "lib/generated/<%= module_name %>.ex"
        "lib/<%= Macro.underscore(module_name) %>.ex" 0 readme in
    edited (replace_from "lib/generated.ex" "lib/my_app/extension.ex" 0 a)

-- How the script ends: to its last line, with a `SystemExit`, or with a `FileNotFoundError`.
pub data Outcome : Type 0 where
  finished : Outcome
  stopped not_found : String → Outcome

-- What follows the reading of a file, given its text or the edit of it.
save :
    String
    → Edit
    → (Dict String String → Outcome × Dict String String)
    → Dict String String
    → Outcome × Dict String String
unfolding insert
save path (edited text) next files = next (insert path text files)
save path (refused message) next files = (stopped message, files)

edit_text :
    String
    → (String → Edit)
    → Option String
    → (Dict String String → Outcome × Dict String String)
    → Dict String String
    → Outcome × Dict String String
unfolding save
edit_text path patch none next files = (not_found path, files)
edit_text path patch (some text) next files = save path (patch text) next files

-- The statements from `read_text` to `write_text`, for one file after the other.
unfoldable pub edit_files :
    List (String × (String → Edit))
    → (Dict String String → Outcome × Dict String String)
    → Dict String String
    → Outcome × Dict String String
unfolding edit_text lookup
edit_files [] next files = next files
edit_files ((path, patch) ∷ rest) next files =
    edit_text path patch (lookup path files) (edit_files rest next) files

abbrev pub actuate_path : String
actuate_path = "lib/ggen_igniter/actuate.ex"

abbrev pub sync_path : String
sync_path = "lib/mix/tasks/ggen_igniter.sync.ex"

abbrev pub reactor_path : String
reactor_path = "lib/ggen_igniter/reactors/reconcile_reactor.ex"

abbrev pub readme_path : String
readme_path = "README.md"

abbrev pub test_path : String
test_path = "test/generated_directory_policy_test.exs"

unfoldable pub patches : List (String × (String → Edit))
unfolding patch_actuate patch_sync patch_reactor patch_readme
patches =
    (actuate_path, patch_actuate)
    ∷ (sync_path, patch_sync)
    ∷ (reactor_path, patch_reactor)
    ∷ (readme_path, patch_readme)
    ∷ []

-- The script, of the files that it finds.
unfoldable pub forbid_generated : Dict String String → Outcome × Dict String String
unfolding edit_files patches insert
forbid_generated files =
    edit_files patches (λ files. (finished, insert test_path policy_test files)) files
