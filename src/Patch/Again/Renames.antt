-- ===== src/Patch/Again/Renames.antt =====
-- The sync task and the readme: the renames of each as one list, which a second pass finds done.
use mathlib.Core.Path.{subst}
use ggen_igniter.Base.{String, List, [], ◌∷◌, true, ◌≡◌, refl, sym, ap, ◌∙◌}
use ggen_igniter.Base.Text.{is_prefix, is_infix}
use ggen_igniter.Base.Text.Apart.{are_apart, clash, agree}
use ggen_igniter.Base.Text.Infix.{is_infix-append}
use ggen_igniter.Patch.{edited, amend, ◌>>=◌, patch_sync, patch_readme, rename_examples}
use ggen_igniter.Patch.Texts.{render_anchor, render_preflight}
use ggen_igniter.Patch.Laws.{edited_inj, amend_shown, amend-shows}
use ggen_igniter.Patch.Chains.{
  are_final, stays_absent, unrenamed, rename_all, rename_all_idem, rename_all-keeps, >>=-eq-edited,
}

examples : List (String × String)
examples =
    ("lib/generated/<%= module_name %>.ex", "lib/<%= Macro.underscore(module_name) %>.ex")
    ∷ ("lib/generated/Multi.Alpha.ex", "lib/multi/alpha.ex")
    ∷ ("lib/generated/Multi.Beta.ex", "lib/multi/beta.ex")
    ∷ ("lib/generated/Multi.Gamma.ex", "lib/multi/gamma.ex")
    ∷ ("lib/generated/resource.ex", "lib/my_app/resources/resource.ex")
    ∷ ("lib/generated.ex", "lib/my_app/extension.ex")
    ∷ []

readme_renames : List (String × String)
readme_renames =
    ("lib/generated/<%= module_name %>.ex", "lib/<%= Macro.underscore(module_name) %>.ex")
    ∷ ("lib/generated.ex", "lib/my_app/extension.ex")
    ∷ []

examples_final : are_final examples ≡ true
unfolding are_final examples stays_absent are_apart clash agree is_prefix
examples_final = refl

readme_final : are_final readme_renames ≡ true
unfolding are_final readme_renames stays_absent are_apart clash agree is_prefix
readme_final = refl

preflight_unrenamed : unrenamed render_preflight examples ≡ true
unfolding unrenamed examples are_apart clash agree is_prefix render_preflight
preflight_unrenamed = refl

rename_examples-eq-rename_all : (s : String) → rename_examples s ≡ rename_all examples s
unfolding rename_examples rename_all examples
rename_examples-eq-rename_all s = refl

rename_examples_idem : (s : String) → rename_examples (rename_examples s) ≡ rename_examples s
rename_examples_idem s =
    ap rename_examples (rename_examples-eq-rename_all s)
    ∙ (rename_examples-eq-rename_all _
        ∙ (rename_all_idem examples s examples_final ∙ sym (rename_examples-eq-rename_all s)))

pub patch_sync_again : (s t : String) → patch_sync s ≡ edited t → patch_sync t ≡ edited t
unfolding patch_sync
patch_sync_again s t h =
    let (u, first, rest) =
      >>=-eq-edited
        (amend render_preflight render_anchor render_preflight "sync renders anchor not found" s)
        (λ x. edited (rename_examples x)) t h in
    let shown =
      amend-shows render_preflight render_anchor render_preflight "sync renders anchor not found" s
        u (λ a b. is_infix-append a render_preflight b) first in
    let kept =
      subst (λ x. is_infix render_preflight x ≡ true)
        (sym (rename_examples-eq-rename_all u) ∙ edited_inj rest)
        (rename_all-keeps render_preflight examples u preflight_unrenamed shown) in
    ap (λ e. e >>= (λ x. edited (rename_examples x)))
      (amend_shown render_preflight render_anchor render_preflight "sync renders anchor not found" t
        kept)
    ∙ (ap (λ x. edited (rename_examples x)) (sym (edited_inj rest))
        ∙ (ap edited (rename_examples_idem u) ∙ rest))

patch_readme-eq-rename_all : (s : String) → patch_readme s ≡ edited (rename_all readme_renames s)
unfolding patch_readme rename_all readme_renames
patch_readme-eq-rename_all s = refl

pub patch_readme_again : (s t : String) → patch_readme s ≡ edited t → patch_readme t ≡ edited t
patch_readme_again s t h =
    let done = edited_inj (sym (patch_readme-eq-rename_all s) ∙ h) in
    patch_readme-eq-rename_all t
    ∙ ap edited (
        ap (rename_all readme_renames) (sym done)
        ∙ (rename_all_idem readme_renames s readme_final ∙ done))
