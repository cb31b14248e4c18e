-- ===== src/Tests/Patches.antt =====
-- Runs of the scripts that rewrite files.
use Prim.Native.String.{◌++◌ as ◌<>◌}
use ggen_igniter.Base.{
  Bool, String, some, [], ◌∷◌, ◌≡◌, ◌≢◌, ◌↔◌, refl, map, All, contains, true, false, string_eq,
}
use ggen_igniter.Base.Dict.{Dict, lookup}
use ggen_igniter.Base.Text.{is_infix}
use ggen_igniter.Base.Text.Infix.{SplitsAt, IsFirst}
use ggen_igniter.Isolate.{State, isolate, config_path, default_envs, scoped_name}
use ggen_igniter.Isolate.Steps.{isolated}
use ggen_igniter.Isolate.Laws.{AreIsolable, isolate-files}
use ggen_igniter.Patch.{
  Edit, edited, refused, replace_once, finished, not_found, guard_signatures, patch_sync,
  patch_reactor, patch_readme, forbid_generated, patches, actuate_path, sync_path, reactor_path,
  readme_path, test_path,
}
use ggen_igniter.Patch.Texts.{
  doc_anchor, write_new_file, write_file, inject_anchor, helper_anchor, render_anchor,
  admit_docs_old, write_pending_anchor, cond_anchor, describe_anchor, plan_docs_old, policy_test,
}
use ggen_igniter.Patch.Laws.{replace_once-cases, replace_once_idem}
use ggen_igniter.Patch.Files.{forbid_generated_iff, forbid_generated-files}
use ggen_igniter.Patch.Files.Steps.{Patch, path_of, IsPatched}

abbrev desk_config : Dict String String
desk_config =
    (
      "desk/config/dev.exs",
      "config :desk, Desk.Repo,\n  database: \"desk_dev\",\n  pool_size: 10\n",
    )
    ∷ ("desk/config/test.exs", "import Config\n")
    ∷ []

-- The environment without the key is the problem.
desk_isolate : isolate "desk" "run7" [] desk_config ≡ (
  record {
    files =
        (
          "desk/config/dev.exs",
          "config :desk, Desk.Repo,\n  database: \"run7_dev\",\n  pool_size: 10\n",
        )
        ∷ ("desk/config/test.exs", "import Config\n")
        ∷ [];
    reports = ggen_igniter.Isolate.rewritten "desk/config/dev.exs" 1 "run7_dev" ∷ [];
    problems = "desk/config/test.exs" ∷ [];
  },
  1,
)
unfolding isolate
desk_isolate = refl

isolate-files_example :
    ((env : String)
      → contains (default_envs []) env ≡ true
      → lookup (config_path "desk" env) (isolate "desk" "run7" [] desk_config).0.files
        ≡ isolated (scoped_name "run7" env) (lookup (config_path "desk" env) desk_config))
    × ((p : String)
        → contains (map (config_path "desk") (default_envs [])) p ≡ false
        → lookup p (isolate "desk" "run7" [] desk_config).0.files ≡ lookup p desk_config)
    × (((isolate "desk" "run7" [] desk_config).1 ≡ 0)
        ↔ AreIsolable "desk" "run7" (default_envs []) desk_config)
unfolding config_path default_envs contains
isolate-files_example = isolate-files "desk" "run7" [] desk_config (refl, (refl, tt))

replace_once-cases_example :
    (is_infix "de" "abc" ≡ true → replace_once "abc" "b" "de" "the b" ≡ edited "abc")
    × (is_infix "de" "abc" ≡ false
        → is_infix "b" "abc" ≡ true
        → (a : String) × (b : String) × SplitsAt "b" "abc" a b
          × IsFirst "b" "abc" a
          × (replace_once "abc" "b" "de" "the b" ≡ edited (a <> ("de" <> b))))
    × (is_infix "de" "abc" ≡ false
        → is_infix "b" "abc" ≡ false
        → replace_once "abc" "b" "de" "the b" ≡ refused ("anchor not found: " <> "the b"))
replace_once-cases_example = replace_once-cases "abc" "b" "de" "the b"

replace_once_idem_example : replace_once "abbc" "b" "bb" "the b" ≡ edited "abbc"
unfolding replace_once
replace_once_idem_example = replace_once_idem "abbc" "b" "bb" "the b" "abbc" refl

-- A tree whose files have nothing but the anchors.
abbrev anchors : Dict String String
anchors =
    (
      actuate_path,
      doc_anchor <> (write_new_file <> (write_file <> (inject_anchor <> helper_anchor))),
    )
    ∷ (sync_path, render_anchor)
    ∷ (
      reactor_path,
      admit_docs_old
          <> (write_pending_anchor <> (cond_anchor <> (describe_anchor <> plan_docs_old))),
    )
    ∷ (readme_path, "see lib/generated.ex\n")
    ∷ []

is_edited : Edit → Bool
is_edited (edited t) = true
is_edited (refused m) = false

signatures_guarded :
    guard_signatures (write_new_file ∷ []) write_new_file
    ≡ edited (write_new_file <> "    admit_output_path!(path)\n")
unfolding guard_signatures
signatures_guarded = refl

sync_edited : is_edited (patch_sync render_anchor) ≡ true
unfolding is_edited patch_sync
sync_edited = refl

readme_edited : patch_readme "see lib/generated.ex\n" ≡ edited "see lib/my_app/extension.ex\n"
unfolding patch_readme
readme_edited = refl

reactor_refused : patch_reactor "" ≡ refused "anchor not found: reactor admit docs"
unfolding patch_reactor
reactor_refused = refl

nothing_found : (forbid_generated []).0 ≡ not_found actuate_path
unfolding forbid_generated
nothing_found = refl

forbid_generated_iff_example :
    ((forbid_generated anchors).0 ≡ finished)
    ↔ All (λ (p : Patch). (t : String) × IsPatched anchors p.0 p.1 t) patches
forbid_generated_iff_example = forbid_generated_iff anchors

forbid_generated-files_example :
    ((forbid_generated anchors).0 ≡ finished
      → All
          (λ (p : Patch).
            (t : String) × IsPatched anchors p.0 p.1 t
            × (lookup p.0 (forbid_generated anchors).1 ≡ some t))
          patches
        × (lookup test_path (forbid_generated anchors).1 ≡ some policy_test))
    × ((p : String)
        → contains (test_path ∷ map path_of patches) p ≡ false
        → lookup p (forbid_generated anchors).1 ≡ lookup p anchors)
    × ((forbid_generated anchors).0 ≢ finished
        → lookup test_path (forbid_generated anchors).1 ≡ lookup test_path anchors)
forbid_generated-files_example = forbid_generated-files anchors
