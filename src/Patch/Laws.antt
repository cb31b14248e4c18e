-- ===== src/Patch/Laws.antt =====
-- What the edits do to a text, and the script to the files.
use Prim.Native.String.{◌++◌ as ◌<>◌}
use mathlib.Core.Path.{subst}
use ggen_igniter.Base.{String, true, false, ◌≡◌, refl, sym, ap, ◌∙◌, inl, inr, Bool-cases}
use ggen_igniter.Base.Text.{is_infix, replace_first}
use ggen_igniter.Base.Text.Infix.{SplitsAt, IsFirst, replace_first-splits, is_infix-append}
use ggen_igniter.Patch.{edited, refused, amend, replace_once}

pub edited_inj : {s t : String} → edited s ≡ edited t → s ≡ t
edited_inj h = cc

pub edited_ne_refused : {s t : String} → edited s ≡ refused t → ⊥
edited_ne_refused h = cc

module _ (shown old new message text : String) where
  pub amend_shown : is_infix shown text ≡ true → amend shown old new message text ≡ edited text
  unfolding amend
  amend_shown p = rw (amend, p) refl

  pub amend_found :
      is_infix shown text ≡ false
      → is_infix old text ≡ true
      → amend shown old new message text ≡ edited (replace_first old new text)
  unfolding amend
  amend_found p q = rw (amend, p, q) refl

  pub amend_missing :
      is_infix shown text ≡ false
      → is_infix old text ≡ false
      → amend shown old new message text ≡ refused message
  unfolding amend
  amend_missing p q = rw (amend, p, q) refl

-- `replace_once` leaves a text that has the new text as it is. In a text that has the old text but not
-- the new one, it replaces the first occurrence, and what stands around it stays. It refuses a text
-- that has neither.
pub replace_once-cases :
    (text old new label : String)
    → (is_infix new text ≡ true → replace_once text old new label ≡ edited text)
      × (is_infix new text ≡ false
          → is_infix old text ≡ true
          → (a : String) × (b : String) × SplitsAt old text a b
            × IsFirst old text a
            × (replace_once text old new label ≡ edited (a <> (new <> b))))
      × (is_infix new text ≡ false
          → is_infix old text ≡ false
          → replace_once text old new label ≡ refused ("anchor not found: " <> label))
unfolding replace_once
replace_once-cases text old new label = (
  amend_shown new old new _ text,
  λ p q.
      let (a, b, splits, first, after) = replace_first-splits old new text q in
      (a, b, splits, first, amend_found new old new _ text p q ∙ ap edited after),
  amend_missing new old new _ text,
)

-- A text that was edited has what is to be shown, if the replacement has it.
pub amend-shows :
    (shown old new message text t : String)
    → ((a b : String) → is_infix shown (a <> (new <> b)) ≡ true)
    → amend shown old new message text ≡ edited t
    → is_infix shown t ≡ true
amend-shows shown old new message text t k h = elim (Bool-cases (is_infix shown text)) [
  | inl p ↦
      subst (λ t. is_infix shown t ≡ true)
        (edited_inj (sym (amend_shown shown old new message text p) ∙ h)) p
  | inr p ↦ elim (Bool-cases (is_infix old text)) [
    | inl q ↦
        let (a, b, splits, first, after) = replace_first-splits old new text q in
        subst (λ t. is_infix shown t ≡ true)
          (sym after ∙ edited_inj (sym (amend_found shown old new message text p q) ∙ h)) (k a b)
    | inr q ↦ absurd (edited_ne_refused (sym h ∙ amend_missing shown old new message text p q))
  ]
]

-- A second `replace_once` with the same texts leaves the text as the first one left it.
pub replace_once_idem :
    (text old new label t : String)
    → replace_once text old new label ≡ edited t
    → replace_once t old new label ≡ edited t
unfolding replace_once
replace_once_idem text old new label t h =
    amend_shown new old new _ t
      (amend-shows new old new _ text t (λ a b. is_infix-append a new b) h)
