-- ===== src/Conformance/Main/Names.antt =====
-- The sorted names of a summary.
use ggen_igniter.Base.{
  Option, List, true, ◌||◌, ◌≡◌, ◌↔◌, refl, sym, ◌∙◌, inl, inr, ◌==◌, contains, string_eq,
  option_eq, all, all_pairs_iff, Bool-cases, String,
}
use ggen_igniter.Base.Exec.{Result, ok, raised, type_error}
use ggen_igniter.Base.Sort.{sort, to_set, contains-to_set}
use ggen_igniter.Ocel.{option_le, option_comparable}
use ggen_igniter.Conformance.Main.{sorted_options}

-- Python can order the names.
abbrev pub IsListable : List (Option String) → Type 0
IsListable names =
    (a b : Option String)
    → contains names a ≡ true
    → contains names b ≡ true
    → (a == b || option_comparable a b) ≡ true

orderable_iff :
    (names : List (Option String))
    → (all (λ a. all (λ b. a == b || option_comparable a b) (to_set names)) (to_set names) ≡ true)
      ↔ IsListable names
orderable_iff names =
    let (to, from) = all_pairs_iff (λ a b. a == b || option_comparable a b) (to_set names) in
    (
      λ h a b m n. to h a b (contains-to_set names a ∙ m) (contains-to_set names b ∙ n),
      λ h. from (λ a b m n.
          h a b (sym (contains-to_set names a) ∙ m) (sym (contains-to_set names b) ∙ n)),
    )

-- Names that can be ordered are listed without repetition.
pub sorted_options-ok :
    (names : List (Option String))
    → IsListable names
    → sorted_options names ≡ ok (sort option_le (to_set names))
unfolding sorted_options
sorted_options-ok names h = rw ((orderable_iff names).1 h) refl

-- What is listed can be ordered.
pub sorted_options-IsListable :
    (names listed : List (Option String)) → sorted_options names ≡ ok listed → IsListable names
unfolding sorted_options
sorted_options-IsListable names listed h =
    elim (Bool-cases
      (all (λ a. all (λ b. a == b || option_comparable a b) (to_set names)) (to_set names))) [
        | inl p ↦ (orderable_iff names).0 p
        | inr p ↦ absurd (raised_ne_ok (rw p at h))
      ]
  where
    raised_ne_ok : ◌≡◌ {A = Result (List (Option String))} (raised type_error) (ok listed) → ⊥
    raised_ne_ok e = cc
