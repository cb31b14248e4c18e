-- ===== src/Patch/Chains.antt =====
-- Edits of one text after each other, and renames: when a second pass leaves the text of the first.
use mathlib.Core.Path.{subst}
use ggen_igniter.Base.{
  String, List, [], ◌∷◌, Bool, true, false, ◌&&◌, ◌≡◌, refl, sym, ap, ◌∙◌, inl, inr, Bool-cases,
  All, and_iff, arith, not,
}
use ggen_igniter.Base.Text.{is_prefix, is_infix, drop_chars, replace_from}
use ggen_igniter.Base.Text.Infix.{SplitsAt, replace_first-splits}
use ggen_igniter.Base.Text.Apart.{are_apart, infix-moves, infix-around}
use ggen_igniter.Base.Text.Replace.{
  replace_from-keeps, replace_from-adds_none, replace_from-removes, replace-absent,
}
use ggen_igniter.Patch.{Edit, edited, refused, amend, ◌>>=◌}
use ggen_igniter.Patch.Laws.{
  edited_inj, edited_ne_refused, amend_shown, amend_found, amend_missing, amend-shows,
}
use ggen_igniter.Patch.Files.Steps.{true_ne_false}

-- The arguments of `amend`.
pub record Amendment : Type 0 where
  pub shown : String
  pub old : String
  pub new : String
  pub message : String

unfoldable pub amend_all : List Amendment → String → Edit
amend_all [] text = edited text
amend_all (a ∷ edits) text = amend a.shown a.old a.new a.message text >>= amend_all edits

-- The replaced text of an edit is apart from a text.
unfoldable pub spared : String → List Amendment → Bool
spared shown [] = true
spared shown (a ∷ edits) = are_apart shown a.old && spared shown edits

-- Each edit shows its text, and the later edits spare it.
unfoldable pub are_settled : List Amendment → Bool
unfolding spared
are_settled [] = true
are_settled (a ∷ edits) = is_infix a.shown a.new && (spared a.shown edits && are_settled edits)

pub >>=-eq-edited :
    (x : Edit) (next : String → Edit) (t : String)
    → x >>= next ≡ edited t
    → (u : String) × (x ≡ edited u) × (next u ≡ edited t)
>>=-eq-edited (edited u) next t h = (u, refl, h)
>>=-eq-edited (refused m) next t h = absurd (edited_ne_refused (sym h))

amend-keeps :
    (kept shown old new message s t : String)
    → are_apart kept old ≡ true
    → is_infix kept s ≡ true
    → amend shown old new message s ≡ edited t
    → is_infix kept t ≡ true
unfolding SplitsAt
amend-keeps kept shown old new message s t far k h = elim (Bool-cases (is_infix shown s)) [
  | inl p ↦
      subst (λ x. is_infix kept x ≡ true)
        (edited_inj (sym (amend_shown shown old new message s p) ∙ h)) k
  | inr p ↦ elim (Bool-cases (is_infix old s)) [
    | inl q ↦
        let (a, b, splits, first, after) = replace_first-splits old new s q in
        subst (λ x. is_infix kept x ≡ true)
          (sym after ∙ edited_inj (sym (amend_found shown old new message s p q) ∙ h))
          (infix-moves kept a old new b far (subst (λ x. is_infix kept x ≡ true) splits k))
    | inr q ↦ absurd (edited_ne_refused (sym h ∙ amend_missing shown old new message s p q))
  ]
]

amend_all-keeps :
    (kept : String) (edits : List Amendment) (s t : String)
    → spared kept edits ≡ true
    → is_infix kept s ≡ true
    → amend_all edits s ≡ edited t
    → is_infix kept t ≡ true
unfolding amend_all spared
amend_all-keeps kept [] s t far k h = subst (λ x. is_infix kept x ≡ true) (edited_inj h) k
amend_all-keeps kept (a ∷ edits) s t far k h =
    let (u, first, rest) = >>=-eq-edited _ (amend_all edits) t h in
    let (near, later) = (and_iff _ _).0 far in
    amend_all-keeps kept edits u t later
      (amend-keeps kept a.shown a.old a.new a.message s u near k first) rest

AreShown : List Amendment → String → Type 0
AreShown edits t = All (λ (a : Amendment). is_infix a.shown t ≡ true) edits

amend_all-shows :
    (edits : List Amendment) (s t : String)
    → are_settled edits ≡ true
    → amend_all edits s ≡ edited t
    → AreShown edits t
unfolding amend_all are_settled AreShown
amend_all-shows [] s t settled h = tt
amend_all-shows (a ∷ edits) s t settled h =
    let (u, first, rest) = >>=-eq-edited _ (amend_all edits) t h in
    let (own, others) = (and_iff _ _).0 settled in
    let (far, later) = (and_iff _ _).0 others in
    (
      amend_all-keeps a.shown edits u t far
          (amend-shows a.shown a.old a.new a.message s u (λ x y. infix-around a.shown x a.new y own)
            first)
          rest,
      amend_all-shows edits u t later rest,
    )

amend_all-shown :
    (edits : List Amendment) (t : String) → AreShown edits t → amend_all edits t ≡ edited t
unfolding amend_all AreShown
amend_all-shown [] t h = refl
amend_all-shown (a ∷ edits) t (p, h) =
    ap (λ e. e >>= amend_all edits) (amend_shown a.shown a.old a.new a.message t p)
    ∙ amend_all-shown edits t h

pub amend_all_idem :
    (edits : List Amendment) (s t : String)
    → are_settled edits ≡ true
    → amend_all edits s ≡ edited t
    → amend_all edits t ≡ edited t
amend_all_idem edits s t settled h = amend_all-shown edits t (amend_all-shows edits s t settled h)

-- Renames, each of all the occurrences of its first text.
unfoldable pub rename_all : List (String × String) → String → String
unfolding replace_from
rename_all [] text = text
rename_all ((old, new) ∷ renames) text = rename_all renames (replace_from old new 0 text)

-- Every later rename brings in nothing of a text.
unfoldable pub stays_absent : String → List (String × String) → Bool
stays_absent t [] = true
stays_absent t ((old, new) ∷ renames) =
    not (is_prefix old "") && (are_apart t new && stays_absent t renames)

unfoldable pub are_final : List (String × String) → Bool
unfolding stays_absent
are_final [] = true
are_final ((old, new) ∷ renames) = stays_absent old ((old, new) ∷ renames) && are_final renames

-- No rename touches a text.
unfoldable pub unrenamed : String → List (String × String) → Bool
unrenamed t [] = true
unrenamed t ((old, new) ∷ renames) =
    not (is_prefix old "") && (are_apart t old && unrenamed t renames)

not-true : (b : Bool) → not b ≡ true → b ≡ false
not-true b h = ground (arith, h)

absent-lem : (b : Bool) → (b ≡ true → ⊥) → b ≡ false
absent-lem b h = elim (Bool-cases b) [ inl p ↦ absurd (h p) | inr p ↦ p ]

pub rename_all-keeps :
    (kept : String) (renames : List (String × String)) (s : String)
    → unrenamed kept renames ≡ true
    → is_infix kept s ≡ true
    → is_infix kept (rename_all renames s) ≡ true
unfolding rename_all unrenamed drop_chars
rename_all-keeps kept [] s h k = k
rename_all-keeps kept ((old, new) ∷ renames) s h k =
    let (ne, others) = (and_iff _ _).0 h in
    let (far, later) = (and_iff _ _).0 others in
    rename_all-keeps kept renames _ later
      (replace_from-keeps old new kept 0 s (not-true _ ne) far k)

rename_all-absent :
    (t : String) (renames : List (String × String)) (s : String)
    → stays_absent t renames ≡ true
    → is_infix t s ≡ false
    → is_infix t (rename_all renames s) ≡ false
unfolding rename_all stays_absent drop_chars
rename_all-absent t [] s h k = k
rename_all-absent t ((old, new) ∷ renames) s h k =
    let (ne, others) = (and_iff _ _).0 h in
    let (far, later) = (and_iff _ _).0 others in
    rename_all-absent t renames _ later (
      absent-lem _
        (λ p. true_ne_false (sym (replace_from-adds_none old new t 0 s (not-true _ ne) far p) ∙ k)))

AreAbsent : List (String × String) → String → Type 0
AreAbsent renames t = All (λ (r : String × String). is_infix r.0 t ≡ false) renames

rename_all-removes :
    (renames : List (String × String)) (s : String)
    → are_final renames ≡ true
    → AreAbsent renames (rename_all renames s)
unfolding rename_all are_final stays_absent AreAbsent
rename_all-removes [] s h = tt
rename_all-removes ((old, new) ∷ renames) s h =
    let (own, others) = (and_iff _ _).0 h in
    let (ne, more) = (and_iff _ _).0 own in
    let (far, later) = (and_iff _ _).0 more in
    (
      rename_all-absent old renames _ later
          (absent-lem _ (λ p. replace_from-removes old new 0 s (not-true _ ne) far p)),
      rename_all-removes renames _ others,
    )

rename_all-none :
    (renames : List (String × String)) (t : String) → AreAbsent renames t → rename_all renames t ≡ t
unfolding rename_all AreAbsent
rename_all-none [] t h = refl
rename_all-none ((old, new) ∷ renames) t (h, hs) =
    ap (rename_all renames) (replace-absent old new t h) ∙ rename_all-none renames t hs

pub rename_all_idem :
    (renames : List (String × String)) (s : String)
    → are_final renames ≡ true
    → rename_all renames (rename_all renames s) ≡ rename_all renames s
rename_all_idem renames s h = rename_all-none renames _ (rename_all-removes renames s h)
