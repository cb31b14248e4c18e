-- ===== src/Patch/Files.antt =====
-- The script on the files: what each way to end leaves of them.
pub mod Steps
pub mod Written
use mathlib.Core.Path.{subst}
use ggen_igniter.Base.{
  String, none, some, List, [], ◌∷◌, Bool, true, false, ◌≡◌, ◌≢◌, refl, sym, ap, ◌∙◌, ◌↔◌, ◌⊎◌, inl,
  inr, Bool-cases, Option-cases, arith, ◌==◌, eq_of_beq, eq_self, eq_iff_eq, string_eq, All,
  All-imp, Distinct, contains, map, none_ne_some, some_inj, ◌||◌,
}
use ggen_igniter.Base.Dict.{Dict, insert, lookup, lookup-insert}
use ggen_igniter.Patch.{
  Edit, edited, refused, Outcome, finished, stopped, not_found, edit_files, edit_text, save,
  patches, forbid_generated, test_path, policy_test,
}
use ggen_igniter.Patch.Laws.{edited_ne_refused}
use ggen_igniter.Patch.Files.Steps.{
  Edit-cases, IsPatched, IsEnd, Runs, edit_files-Runs, Patch, path_of, lookup-insert_other, hit,
  true_ne_false, apart, neither, finished_ne_end, IsPatched-insert, goes_on, ends, writes,
}
use ggen_igniter.Patch.Files.Written.{
  Runs-frame, AreWritten, ArePatched, written_first, Runs-finished, patched_later, end_not-patched,
  Runs-patched, Runs-unfinished, kept_by,
}

unfoldable pub write_test : Dict String String → Outcome × Dict String String
write_test files = (finished, insert test_path policy_test files)

paths-Distinct : Distinct (map path_of patches)
unfolding patches contains
paths-Distinct = (refl, (refl, (refl, (refl, tt))))

script_run : (files : Dict String String) → Runs patches write_test files (forbid_generated files)
unfolding forbid_generated write_test
script_run files = edit_files-Runs write_test patches files

-- The script finishes exactly if each of the four files is there and its edit succeeds on the text
-- that it has at the start.
pub forbid_generated_iff :
    (files : Dict String String)
    → ((forbid_generated files).0 ≡ finished)
      ↔ All (λ (p : Patch). (t : String) × IsPatched files p.0 p.1 t) patches
unfolding ArePatched AreWritten write_test
forbid_generated_iff files = (
  λ h.
      let (fs, same, (written, frame)) =
        Runs-finished write_test (script_run files) paths-Distinct h in
      All-imp (λ p (t, e, l). (t, e)) patches written,
  λ h.
      let (fs, same) = Runs-patched write_test (script_run files) paths-Distinct h in
      ap (λ r. r.0) same,
)

-- When the script finishes, each of the four files has its edited text, and the test has its fixed
-- text. When it does not, the test is as it was. Every other file is as it was in either case.
pub forbid_generated-files :
    (files : Dict String String)
    → ((forbid_generated files).0 ≡ finished
        → All
            (λ (p : Patch).
              (t : String) × IsPatched files p.0 p.1 t
              × (lookup p.0 (forbid_generated files).1 ≡ some t))
            patches
          × (lookup test_path (forbid_generated files).1 ≡ some policy_test))
      × ((p : String)
          → contains (test_path ∷ map path_of patches) p ≡ false
          → lookup p (forbid_generated files).1 ≡ lookup p files)
      × ((forbid_generated files).0 ≢ finished
          → lookup test_path (forbid_generated files).1 ≡ lookup test_path files)
unfolding AreWritten write_test contains patches
forbid_generated-files files = (
  λ h.
      let (fs, same, (written, frame)) =
        Runs-finished write_test (script_run files) paths-Distinct h in
      (
        subst
            (λ (r : Outcome × Dict String String).
              All
                (λ (p : Patch).
                  (t : String) × IsPatched files p.0 p.1 t × (lookup p.0 r.1 ≡ some t))
                patches)
            (sym same) (kept_by test_path policy_test files fs patches refl written),
        subst (λ (r : Outcome × Dict String String). lookup test_path r.1 ≡ some policy_test)
            (sym same) (hit test_path policy_test fs),
      ),
  λ p h.
      let (other, others) = neither _ _ h in
      Runs-frame write_test p (script_run files) others
        (λ fs. lookup-insert_other test_path p policy_test fs other),
  λ h. Runs-unfinished write_test test_path (script_run files) refl (λ fs. refl) h,
)
