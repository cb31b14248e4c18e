-- ===== src/Conformance/Parse/Laws.antt =====
-- When the loop of `parse_plan` drops a chunk.
use Prim.Native.String.{◌++◌ as ◌<>◌}
use mathlib.Core.Path.{subst}
use ggen_igniter.Base.{
  All, All-imp, flat_map-eq-nil, Bool, false, ◌||◌, String, Option, none, some, [], ◌≡◌, refl, sym,
  ◌∙◌, ◌↔◌, ◌⊎◌, inl, inr, Option-cases, true, none_ne_some,
}
use ggen_igniter.Base.Text.{split_on}
use ggen_igniter.Regex.{search}
use ggen_igniter.Regex.Syntax.{literal}
use ggen_igniter.Regex.Captures.{captures, search-captures}
use ggen_igniter.Regex.Complete.{IsAbsent, search_iff}
use ggen_igniter.Conformance.Parse.{field, field_of, group_one, step_of, chunk_steps, parse_plan}

step_of-eq-nil :
    (a b c d : Option String)
    → (step_of a b c d ≡ []) ↔ ((a ≡ none) ⊎ (b ≡ none) ⊎ (c ≡ none) ⊎ (d ≡ none))
unfolding step_of
step_of-eq-nil none b c d = (λ h. inl refl, λ h. refl)
step_of-eq-nil (some a) none c d = (λ h. inr (inl refl), λ h. refl)
step_of-eq-nil (some a) (some b) none d = (λ h. inr (inr (inl refl)), λ h. refl)
step_of-eq-nil (some a) (some b) (some c) none = (λ h. inr (inr (inr refl)), λ h. refl)
step_of-eq-nil (some a) (some b) (some c) (some d) = (
  λ h. (cc),
  λ h. elim h [
    | inl e ↦ (cc)
    | inr h ↦ elim h [ inl e ↦ (cc) | inr h ↦ elim h [ inl e ↦ (cc) | inr e ↦ (cc) ] ]
  ],
)

or-true : (b : Bool) → (b || true) ≡ true
or-true true = refl
or-true false = refl

-- A field is missing in a chunk exactly if its pattern matches nowhere in it: the group of the
-- pattern is on every way through it.
field_of-eq-none :
    (chunk name : String) → (field_of chunk name ≡ none) ↔ IsAbsent (field name) chunk
unfolding field_of group_one captures
field_of-eq-none chunk name = elim (Option-cases (search (field name) chunk)) [
  | inl e ↦ rw e ((λ h. (search_iff (field name) chunk).0 e), (λ h. refl))
  | inr (m, e) ↦ (
    λ h. absurd (
        search-captures (field name) 1 on_every_way chunk m e
          (subst (λ o. group_one o ≡ none) e h)),
    λ h. absurd (none_ne_some (sym ((search_iff (field name) chunk).1 h) ∙ e)),
  )
]
  where
    on_every_way : captures 1 (field name) ≡ true
    on_every_way = or-true (captures 1 (literal (name <> ":")))

-- The pattern of one of the four fields matches nowhere in the chunk.
unfoldable pub LacksField : String → Type 0
LacksField chunk =
    IsAbsent (field "phase") chunk
    ⊎ IsAbsent (field "step") chunk
    ⊎ IsAbsent (field "task") chunk
    ⊎ IsAbsent (field "subject") chunk

-- The loop body of the plan's parser drops a chunk exactly if the pattern of one of the four fields
-- matches nowhere in the chunk.
pub chunk_steps-eq-nil : (chunk : String) → (chunk_steps chunk ≡ []) ↔ LacksField chunk
unfolding chunk_steps LacksField
chunk_steps-eq-nil chunk = (
  λ h. elim ((step_of-eq-nil _ _ _ _).0 h) [
    | inl e ↦ inl ((field_of-eq-none chunk "phase").0 e)
    | inr t ↦ elim t [
      | inl e ↦ inr (inl ((field_of-eq-none chunk "step").0 e))
      | inr t ↦ elim t [
        | inl e ↦ inr (inr (inl ((field_of-eq-none chunk "task").0 e)))
        | inr e ↦ inr (inr (inr ((field_of-eq-none chunk "subject").0 e)))
      ]
    ]
  ],
  λ h. (step_of-eq-nil (field_of chunk "phase") _ _ _).1 (elim h [
    | inl a ↦ inl ((field_of-eq-none chunk "phase").1 a)
    | inr t ↦ elim t [
      | inl a ↦ inr (inl ((field_of-eq-none chunk "step").1 a))
      | inr t ↦ elim t [
        | inl a ↦ inr (inr (inl ((field_of-eq-none chunk "task").1 a)))
        | inr a ↦ inr (inr (inr ((field_of-eq-none chunk "subject").1 a)))
      ]
    ]
  ]),
)

-- The plan's parser finds no step exactly if each chunk that "%{" separates lacks one of the four
-- fields: the pattern of the field matches nowhere in it.
pub parse_plan-eq-nil :
    (text : String) → (parse_plan text ≡ []) ↔ All LacksField (split_on "%{" 0 text)
unfolding parse_plan
parse_plan-eq-nil text = (
  λ h.
      All-imp (λ chunk. (chunk_steps-eq-nil chunk).0) (split_on "%{" 0 text)
        ((flat_map-eq-nil chunk_steps (split_on "%{" 0 text)).0 h),
  λ h.
      (flat_map-eq-nil chunk_steps (split_on "%{" 0 text)).1
        (All-imp (λ chunk. (chunk_steps-eq-nil chunk).1) (split_on "%{" 0 text) h),
)
