-- ===== src/Patch/Again/Amendments.antt =====
-- `actuate.ex` and the reactor: the edits of each as one list, which a second pass finds done.
use Prim.Native.String.{◌++◌ as ◌<>◌}
use ggen_igniter.Base.{String, List, [], ◌∷◌, true, ◌≡◌, refl, sym, ◌∙◌}
use ggen_igniter.Base.Text.{is_prefix, is_infix, strip}
use ggen_igniter.Base.Text.Apart.{are_apart, clash, agree}
use ggen_igniter.Patch.{
  Edit, edited, refused, amend, ◌>>=◌, guard_signatures, replace_once, patch_actuate, patch_reactor,
}
use ggen_igniter.Patch.Texts.{
  doc_anchor, policy_doc, write_new_file, write_file, inject_anchor, inject_with_guard,
  helper_anchor, helpers, admit_docs_old, admit_docs_new, write_pending_anchor,
  write_pending_with_generated, cond_anchor, cond_generated, describe_anchor, describe_generated,
  plan_docs_old, plan_docs_new,
}
use ggen_igniter.Patch.Chains.{Amendment, amend_all, are_settled, spared, amend_all_idem}

guard_of : String → Amendment
guard_of signature = record {
  shown = signature <> "    admit_output_path!(path)\n";
  old = signature;
  new = signature <> "    admit_output_path!(path)\n";
  message = "actuate function anchor not found: " <> strip signature;
}

doc_amendment : Amendment
doc_amendment = record {
  shown = policy_doc;
  old = doc_anchor;
  new = policy_doc <> doc_anchor;
  message = "actuate moduledoc anchor not found";
}

inject_amendment : Amendment
unfolding inject_with_guard
inject_amendment = record {
  shown = inject_with_guard;
  old = inject_anchor;
  new = inject_with_guard;
  message = "actuate function anchor not found: inject_content!/5";
}

helper_amendment : Amendment
helper_amendment = record {
  shown = helpers;
  old = helper_anchor;
  new = helpers <> helper_anchor;
  message = "actuate helper anchor not found";
}

actuate_amendments : List Amendment
unfolding doc_amendment inject_amendment helper_amendment guard_of
actuate_amendments =
    doc_amendment
    ∷ guard_of write_new_file
    ∷ guard_of write_file
    ∷ inject_amendment
    ∷ helper_amendment
    ∷ []

actuate_settled : are_settled actuate_amendments ≡ true
unfolding are_settled actuate_amendments is_infix is_prefix are_apart clash agree spared
    inject_with_guard doc_amendment inject_amendment helper_amendment guard_of
actuate_settled = refl

abbrev made : Amendment → String → Edit
made a s = amend a.shown a.old a.new a.message s

>>=_assoc : (x : Edit) (f g : String → Edit) → (x >>= f) >>= g ≡ x >>= (λ t. f t >>= g)
>>=_assoc (edited t) f g = refl
>>=_assoc (refused m) f g = refl

>>=-edited : (x : Edit) → x >>= edited ≡ x
>>=-edited (edited t) = refl
>>=-edited (refused m) = refl

>>=_congr : (x : Edit) (f g : String → Edit) → ((t : String) → f t ≡ g t) → x >>= f ≡ x >>= g
>>=_congr (edited t) f g h = h t
>>=_congr (refused m) f g h = refl

patch_actuate-eq-amend_all : (s : String) → patch_actuate s ≡ amend_all actuate_amendments s
unfolding patch_actuate amend_all actuate_amendments guard_signatures doc_amendment inject_amendment
    helper_amendment guard_of
patch_actuate-eq-amend_all s = >>=_congr (made doc_amendment s) _ _ λ d.
    >>=_assoc (made (guard_of write_new_file) d) _ _
    ∙ >>=_congr (made (guard_of write_new_file) d) _ _ λ g.
      >>=_assoc (made (guard_of write_file) g) _ _
      ∙ >>=_congr (made (guard_of write_file) g) _ _ λ h.
        >>=_congr (made inject_amendment h) _ _ λ i. sym (>>=-edited (made helper_amendment i))

admit_amendment : Amendment
admit_amendment = record {
  shown = admit_docs_new;
  old = admit_docs_old;
  new = admit_docs_new;
  message = "anchor not found: reactor admit docs";
}

pending_amendment : Amendment
unfolding write_pending_with_generated
pending_amendment = record {
  shown = write_pending_with_generated;
  old = write_pending_anchor;
  new = write_pending_with_generated;
  message = "reactor write_pending anchor not found";
}

cond_amendment : Amendment
cond_amendment = record {
  shown = cond_generated;
  old = cond_anchor;
  new = cond_generated;
  message = "anchor not found: reactor admission cond";
}

describe_amendment : Amendment
describe_amendment = record {
  shown = describe_generated;
  old = describe_anchor;
  new = describe_generated <> describe_anchor;
  message = "reactor describe_failure anchor not found";
}

plan_amendment : Amendment
plan_amendment = record {
  shown = plan_docs_new;
  old = plan_docs_old;
  new = plan_docs_new;
  message = "anchor not found: reactor plan refusal docs";
}

reactor_amendments : List Amendment
unfolding admit_amendment pending_amendment cond_amendment describe_amendment plan_amendment
reactor_amendments =
    admit_amendment ∷ pending_amendment ∷ cond_amendment ∷ describe_amendment ∷ plan_amendment ∷ []

reactor_settled : are_settled reactor_amendments ≡ true
unfolding are_settled reactor_amendments is_infix is_prefix are_apart clash agree spared
    write_pending_with_generated admit_amendment pending_amendment cond_amendment describe_amendment
    plan_amendment
reactor_settled = refl

patch_reactor-eq-amend_all : (s : String) → patch_reactor s ≡ amend_all reactor_amendments s
unfolding patch_reactor amend_all reactor_amendments replace_once admit_amendment pending_amendment
    cond_amendment describe_amendment plan_amendment
patch_reactor-eq-amend_all s = >>=_congr (made admit_amendment s) _ _ λ a.
    >>=_congr (made pending_amendment a) _ _ λ b.
      >>=_congr (made cond_amendment b) _ _
        λ c. >>=_congr (made describe_amendment c) _ _ λ d. sym (>>=-edited (made plan_amendment d))

chain_again :
    (patch : String → Edit) (amendments : List Amendment)
    → ((s : String) → patch s ≡ amend_all amendments s)
    → are_settled amendments ≡ true
    → (s t : String) → patch s ≡ edited t
    → patch t ≡ edited t
chain_again patch amendments same settled s t h =
    same t ∙ amend_all_idem amendments s t settled (sym (same s) ∙ h)

pub patch_actuate_again : (s t : String) → patch_actuate s ≡ edited t → patch_actuate t ≡ edited t
patch_actuate_again =
    chain_again patch_actuate actuate_amendments patch_actuate-eq-amend_all actuate_settled

pub patch_reactor_again : (s t : String) → patch_reactor s ≡ edited t → patch_reactor t ≡ edited t
patch_reactor_again =
    chain_again patch_reactor reactor_amendments patch_reactor-eq-amend_all reactor_settled
