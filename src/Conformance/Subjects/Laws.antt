-- ===== src/Conformance/Subjects/Laws.antt =====
-- The files of the composed subjects, and the form of the path that `underscore` makes.
pub mod Paths
use mathlib.Core.Path.{subst}
use ggen_igniter.Base.{
  String, Option, none, some, List, [], ◌∷◌, Bool, true, false, ◌≡◌, refl, sym, ap, ◌∙◌, ◌↔◌, arith,
  inl, inr, flat_map, flat_map-eq-nil, if◌then◌else◌, ◌==◌, eq_of_beq, string_eq, Bool-cases, All,
  All-imp,
}
use ggen_igniter.Base.Sort.{sort, to_set, str_le, All-sort-to_set}
use ggen_igniter.Ocel.{Event}
use ggen_igniter.Conformance.{Violation}
use ggen_igniter.Conformance.Subjects.{
  starts_upper, add_subject, subjects_of, subject_path, subject_violations, check_subjects_on_disk,
}

module _ (is_file : String → Bool) (fixture : String) where
  -- A subject that names a module has its file.
  abbrev pub HasFile : String → Type 0
  HasFile s = starts_upper s ≡ true → is_file (subject_path fixture s) ≡ true

  abbrev pub IsOnDisk : Event → Type 0
  IsOnDisk e = (s : String) → e.subject ≡ some s → HasFile s

  subject_iff : (run s : String) → (subject_violations is_file run fixture s ≡ []) ↔ HasFile s
  unfolding subject_violations
  subject_iff run s = (
    λ h u. ground (arith, h, u),
    λ h. elim (Bool-cases (starts_upper s)) [ inl u ↦ rw (u, h u) | inr u ↦ rw u ],
  )

  added_iff :
      (o : Option String) (rest : List String)
      → All HasFile (add_subject o rest)
        ↔ (((s : String) → o ≡ some s → HasFile s) × All HasFile rest)
  unfolding add_subject
  added_iff none rest = (λ h. (λ s p. absurd (none_ne_some p), h), λ h. h.1)
    where
      none_ne_some : {s : String} → none ≡ some s → ⊥
      none_ne_some p = cc
  added_iff (some t) rest = elim (Bool-cases (t == "")) [
    | inl p ↦
        rw p
          (λ h. (λ s q u. absurd (empty_name (sym (eq_of_beq t "" p) ∙ some_inj q) u), h), λ h. h.1)
    | inr p ↦ rw p (λ h. (λ s q. subst HasFile (some_inj q) h.0, h.1), λ h. (h.0 t refl, h.1))
  ]
    where
      some_inj : {a b : String} → some a ≡ some b → a ≡ b
      some_inj h = cc

      empty_name : {s : String} → "" ≡ s → starts_upper s ≡ true → ⊥
      empty_name q u = false_ne_true (ap starts_upper q ∙ u)
        where
          false_ne_true : starts_upper "" ≡ true → ⊥
          false_ne_true h = unfold starts_upper in cc

  subjects_iff : (es : List Event) → All HasFile (subjects_of es) ↔ All IsOnDisk es
  unfolding subjects_of
  subjects_iff [] = (λ h. tt, λ h. tt)
  subjects_iff (e ∷ es) = (
    λ h. let (p, q) = (added_iff e.subject (subjects_of es)).0 h in (p, (subjects_iff es).0 q),
    λ (p, q). (added_iff e.subject (subjects_of es)).1 (p, (subjects_iff es).1 q),
  )

  -- No file is reported as missing exactly if, for every composed event whose subject starts with a
  -- capital, the file at the subject's path under the fixture's lib directory is there.
  pub check_subjects_on_disk_iff :
      (run : String) (composed : List Event)
      → (check_subjects_on_disk is_file run fixture composed ≡ []) ↔ All IsOnDisk composed
  unfolding check_subjects_on_disk
  check_subjects_on_disk_iff run composed = (
    λ h. (subjects_iff composed).0 (
        All-imp (λ s. (subject_iff run s).0) (subjects_of composed)
          ((All-sort-to_set Quiet str_le (subjects_of composed)).0
            ((flat_map-eq-nil (subject_violations is_file run fixture) _).0 h))),
    λ h. (flat_map-eq-nil (subject_violations is_file run fixture) _).1 (
        (All-sort-to_set Quiet str_le (subjects_of composed)).1 (
          All-imp (λ s. (subject_iff run s).1) (subjects_of composed)
            ((subjects_iff composed).1 h))),
  )
    where
      Quiet : String → Type 0
      Quiet s = subject_violations is_file run fixture s ≡ []
