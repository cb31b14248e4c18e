-- ===== src/Conformance/Main/Flip.antt =====
-- The guard flip: what some refused admission of run 2 alone shows.
use ggen_igniter.Base.{
  ◌↔◌, String, Option, some, List, [], ◌∷◌, Bool, true, false, not, ◌≡◌, refl, sym, ap, ◌∙◌, arith,
  inl, inr, filter, is_empty, if◌then◌else◌, contains, contains-cons, string_eq, option_eq,
  Bool-cases,
}
use ggen_igniter.Base.Sort.{sort, contains-sort, contains-sort-to_set}
use ggen_igniter.Ocel.{Event, option_le}
use ggen_igniter.Conformance.{no_guard_flip}
use ggen_igniter.Conformance.Main.{Summary, RunResult, guard_flip_of, flip_violations}
use ggen_igniter.Conformance.Main.Runs.{guarded_subjects, summary_of, quiet_result}

-- What an empty list of the sorted items that pass a test excludes.
passes_one :
    (p : Option String → Bool) (xs : List (Option String))
    → is_empty (sort option_le (filter p xs)) ≡ false
    → (s : Option String) × (contains xs s ≡ true) × (p s ≡ true)
unfolding filter sort
passes_one p [] h = absurd (ground (arith, h))
passes_one p (x ∷ xs) h = elim (Bool-cases (p x)) [
  | inl t ↦ (x, (contains-cons x xs x).1 (inl refl), t)
  | inr t ↦ let (s, m, u) = passes_one p xs (rw t at h) in (s, (contains-cons x xs s).1 (inr m), u)
]

-- The steps that run 2 refuses and run 1 does not.
abbrev flipped_of : Summary → Summary → List (Option String)
flipped_of r1 r2 =
    sort option_le
      (filter (λ s. not (contains r1.guarded_admission_refused s)) r2.guarded_admission_refused)

contains-filter :
    (p : Option String → Bool) (xs : List (Option String)) (s : Option String)
    → contains xs s ≡ true
    → p s ≡ true
    → contains (filter p xs) s ≡ true
unfolding filter contains
contains-filter p [] s m t = absurd (ground (arith, m))
contains-filter p (x ∷ xs) s m t = elim ((contains-cons x xs s).0 m) [
  | inl e ↦ rw (ap p e ∙ t) ((contains-cons x (filter p xs) s).1 (inl e))
  | inr n ↦ elim (Bool-cases (p x)) [
    | inl u ↦ rw u ((contains-cons x (filter p xs) s).1 (inr (contains-filter p xs s n t)))
    | inr u ↦ rw u (contains-filter p xs s n t)
  ]
]

not_empty :
    (xs : List (Option String)) (s : Option String) → contains xs s ≡ true → is_empty xs ≡ false
not_empty [] s m = absurd (unfold contains in cc)
not_empty (x ∷ xs) s m = refl

pub flip_iff :
    (st1 st2 : List Event)
    → (flip_violations (guard_flip_of (some (summary_of st1)) (some (summary_of st2))) ≡ []) ↔ (
        (s : Option String) × (contains (guarded_subjects st2) s ≡ true)
        × (contains (guarded_subjects st1) s ≡ false))
unfolding flip_violations guard_flip_of
flip_iff st1 st2 = (
  λ h.
      let (s, m, u) =
        passes_one fresh names2 (found (flipped_of (summary_of st1) (summary_of st2)) h) in
      (
        s,
        sym (contains-sort-to_set option_le (guarded_subjects st2) s) ∙ m,
        sym (contains-sort-to_set option_le (guarded_subjects st1) s) ∙ ground (arith, u),
      ),
  λ (s, m, n).
      let t : fresh s ≡ true =
        ap not (contains-sort-to_set option_le (guarded_subjects st1) s ∙ n) in
      let k =
        contains-filter fresh names2 s (contains-sort-to_set option_le (guarded_subjects st2) s ∙ m)
          t in
      let ne =
        not_empty (flipped_of (summary_of st1) (summary_of st2)) s
          (contains-sort option_le (filter fresh names2) s ∙ k) in
      rw ne refl,
)
  where
    names2 : List (Option String)
    names2 = (summary_of st2).guarded_admission_refused

    fresh : Option String → Bool
    fresh s = not (contains (summary_of st1).guarded_admission_refused s)

    found :
        (xs : List (Option String))
        → (if is_empty xs then no_guard_flip ∷ [] else []) ≡ []
        → is_empty xs ≡ false
    found xs h = ground (arith, h)

pub flipped_step :
    (run1 run2 : RunResult) (st1 st2 : List Event)
    → run1 ≡ quiet_result st1
    → run2 ≡ quiet_result st2
    → flip_violations (guard_flip_of run1.summary run2.summary) ≡ []
    → (s : Option String) × (contains (guarded_subjects st2) s ≡ true)
      × (contains (guarded_subjects st1) s ≡ false)
flipped_step run1 run2 st1 st2 e1 e2 h = (flip_iff st1 st2).0 (
    ap (λ (r : RunResult). flip_violations (guard_flip_of (some (summary_of st1)) r.summary))
      (sym e2)
    ∙ (ap (λ (r : RunResult). flip_violations (guard_flip_of r.summary run2.summary)) (sym e1) ∙ h))
