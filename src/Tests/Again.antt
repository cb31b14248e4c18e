-- ===== src/Tests/Again.antt =====
-- A second run of the script that forbids `generated/`, on files that the first run has edited.
use Prim.Native.String.{◌++◌ as ◌<>◌}
use ggen_igniter.Base.{Bool, String, [], ◌∷◌, ◌≡◌, refl, All, true, false, string_eq}
use ggen_igniter.Base.Dict.{Dict, lookup}
use ggen_igniter.Patch.{
  Edit, edited, refused, finished, patch_actuate, patch_sync, patch_reactor, forbid_generated,
  patches, actuate_path, sync_path, reactor_path, readme_path,
}
use ggen_igniter.Patch.Texts.{
  policy_doc, inject_with_guard, doc_anchor, write_new_file, write_file, helper_anchor,
  render_anchor, admit_docs_old, write_pending_anchor, cond_anchor, describe_anchor, plan_docs_old,
}
use ggen_igniter.Patch.Files.{forbid_generated_iff}
use ggen_igniter.Patch.Files.Steps.{Patch, IsPatched}
use ggen_igniter.Patch.Again.{forbid_generated_again}

is_edited : Edit → Bool
is_edited (edited t) = true
is_edited (refused m) = false

text_of : Edit → String
text_of (edited t) = t
text_of (refused m) = m

eq-text_of : (e : Edit) → is_edited e ≡ true → e ≡ edited (text_of e)
unfolding is_edited text_of
eq-text_of (edited t) h = refl
eq-text_of (refused m) h = absurd (cc)

abbrev reactor_anchors : String
reactor_anchors =
    admit_docs_old <> (write_pending_anchor <> (cond_anchor <> (describe_anchor <> plan_docs_old)))

reactor_edited : is_edited (patch_reactor reactor_anchors) ≡ true
unfolding is_edited patch_reactor
reactor_edited = refl

abbrev short_of_helpers : String
short_of_helpers =
    policy_doc
    <> (doc_anchor
        <> (write_new_file
            <> ("    admit_output_path!(path)\n"
                <> (write_file
                    <> ("    admit_output_path!(path)\n"
                        <> (inject_with_guard <> helper_anchor))))))

actuate_edited : is_edited (patch_actuate short_of_helpers) ≡ true
unfolding is_edited patch_actuate inject_with_guard
actuate_edited = refl

sync_edited : is_edited (patch_sync (render_anchor <> "lib/generated.ex\n")) ≡ true
unfolding is_edited patch_sync
sync_edited = refl

-- A tree in which each of the four files is still to be edited.
abbrev to_edit : Dict String String
to_edit =
    (actuate_path, short_of_helpers)
    ∷ (sync_path, render_anchor <> "lib/generated.ex\n")
    ∷ (reactor_path, reactor_anchors)
    ∷ (readme_path, "see lib/generated.ex\n")
    ∷ []

to_edit-IsPatched : All (λ (p : Patch). (t : String) × IsPatched to_edit p.0 p.1 t) patches
unfolding patches IsPatched lookup
to_edit-IsPatched = (
  (_, (_, refl, eq-text_of _ actuate_edited)),
  (
    (_, (_, refl, eq-text_of _ sync_edited)),
    ((_, (_, refl, eq-text_of _ reactor_edited)), ((_, (_, refl, refl)), tt)),
  ),
)

to_edit_finished : (forbid_generated to_edit).0 ≡ finished
to_edit_finished = (forbid_generated_iff to_edit).1 to_edit-IsPatched

forbid_generated_again_example :
    forbid_generated (forbid_generated to_edit).1 ≡ forbid_generated to_edit
forbid_generated_again_example = forbid_generated_again to_edit to_edit_finished
