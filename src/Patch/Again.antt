-- ===== src/Patch/Again.antt =====
-- The script a second time, on the files that it left.
pub mod Amendments
pub mod Renames
use mathlib.Core.Path.{subst}
use ggen_igniter.Base.{
  String, some, List, [], ◌∷◌, ◌≡◌, refl, sym, ap, ◌∙◌, All, All-imp, inl, inr, Bool-cases, arith,
  ◌==◌, eq_of_beq, string_eq, some_inj,
}
use ggen_igniter.Base.Dict.{Dict, insert, lookup, insert-present}
use ggen_igniter.Patch.{
  Edit, edited, Outcome, finished, edit_files, edit_text, save, patches, forbid_generated,
  test_path, policy_test, patch_actuate, patch_sync, patch_reactor, patch_readme,
}
use ggen_igniter.Patch.Files.{write_test, forbid_generated-files}
use ggen_igniter.Patch.Files.Steps.{Patch, IsPatched}
use ggen_igniter.Patch.Again.Amendments.{patch_actuate_again, patch_reactor_again}
use ggen_igniter.Patch.Again.Renames.{patch_sync_again, patch_readme_again}

-- An edit that, done once, leaves its own result as it is.
Settles : Patch → Type 0
Settles p = (s t : String) → p.1 s ≡ edited t → p.1 t ≡ edited t

patches-Settles : All Settles patches
unfolding patches Settles
patches-Settles =
    (patch_actuate_again, (patch_sync_again, (patch_reactor_again, (patch_readme_again, tt))))

-- The file is there with a text that its edit leaves as it is.
IsSettled : Dict String String → Patch → Type 0
IsSettled files p = (t : String) × (lookup p.0 files ≡ some t) × (p.1 t ≡ edited t)

edit_files-settled :
    (next : Dict String String → Outcome × Dict String String) (ps : List Patch)
    (files : Dict String String)
    → All (IsSettled files) ps
    → edit_files ps next files ≡ next files
unfolding edit_files IsSettled edit_text save
edit_files-settled next [] files h = refl
edit_files-settled next ((path, patch) ∷ ps) files ((t, there, same), h) =
    rw (edit_files, there, same, insert-present path t files there)
      (edit_files-settled next ps files h)

IsSettled-after :
    (files after : Dict String String) (ps : List Patch)
    → All Settles ps
    → All (λ (p : Patch). (t : String) × IsPatched files p.0 p.1 t × (lookup p.0 after ≡ some t)) ps
    → All (IsSettled after) ps
unfolding Settles IsSettled IsPatched
IsSettled-after files after [] s h = tt
IsSettled-after files after (p ∷ ps) (s, ss) ((t, (old, there, done), now), h) =
    ((t, now, s old t done), IsSettled-after files after ps ss h)

forbid_generated-eq-edit_files :
    (files : Dict String String) → forbid_generated files ≡ edit_files patches write_test files
unfolding forbid_generated write_test
forbid_generated-eq-edit_files files = refl

-- A second run of the script, on the files that a finished run left, finishes and leaves them as they
-- are.
pub forbid_generated_again :
    (files : Dict String String)
    → (forbid_generated files).0 ≡ finished
    → forbid_generated (forbid_generated files).1 ≡ forbid_generated files
unfolding write_test
forbid_generated_again files h =
    let after = (forbid_generated files).1 in
    let (written, tested) = (forbid_generated-files files).0 h in
    let settled = IsSettled-after files after patches patches-Settles written in
    forbid_generated-eq-edit_files after
    ∙ (edit_files-settled write_test patches after settled
        ∙ (ap (λ fs. (finished, fs)) (insert-present test_path policy_test after tested)
            ∙ ap (λ out. (out, after)) (sym h)))
