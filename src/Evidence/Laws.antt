-- ===== src/Evidence/Laws.antt =====
-- What it takes for every reference to resolve.
use Prim.Native.Nat.{◌<◌, ◌≤◌}
use mathlib.Core.Path.{subst}
use ggen_igniter.Base.{
  cons_ne_nil, some_inj, none_ne_some, ℕ, String, Option, none, some, List, [], true, false, ◌≡◌,
  refl, ◌↔◌, arith, flat_map-eq-nil, is_empty_iff, All, All-imp, sym,
}
use ggen_igniter.Evidence.{
  Reference, Capability, range_problems, last_line, line_problems, file_problems,
  reference_problems, references_of, evidence_check,
}

-- A reference without lines stands in a capability that is not admitted; one with lines has its
-- first line from 1 on and its last line inside the file.
unfoldable pub IsInside : Capability → Reference → ℕ → Option ℕ → Type 0
unfolding last_line
IsInside cap r total none = cap.admitted ≡ false
IsInside cap r total (some first) = (0 < first) × (last_line first r.end_line ≤ total)

IsInside-iff :
    (cap : Capability) (r : Reference) (total : ℕ) (start : Option ℕ)
    → (line_problems cap r total start ≡ []) ↔ IsInside cap r total start
unfolding line_problems IsInside range_problems
IsInside-iff cap r total none = (λ h. ground (arith, h), λ h. rw h)
IsInside-iff cap r total (some first) =
    (λ h. (ground (arith, h), ground (arith, h)), λ (p, q). ground (arith, p, q))

module _ (count_lines : String → Option ℕ) where
  abbrev pub IsResolved : Capability → Reference → Type 0
  IsResolved cap r = (total : ℕ) × (count_lines r.path ≡ some total) × IsInside cap r total r.start

  IsResolved-iff :
      (cap : Capability) (r : Reference)
      → (reference_problems count_lines cap r ≡ []) ↔ IsResolved cap r
  unfolding reference_problems file_problems
  IsResolved-iff cap r = go (count_lines r.path)
    where
      go :
          (o : Option ℕ)
          → (file_problems cap r o ≡ [])
            ↔ ((total : ℕ) × (o ≡ some total) × IsInside cap r total r.start)
      go none = (λ h. absurd (cons_ne_nil h), λ (t, p, q). absurd (none_ne_some p))
      go (some total) = (
        λ h. (total, refl, (IsInside-iff cap r total r.start).0 h),
        λ (t, p, q).
            (IsInside-iff cap r total r.start).1
              (subst (λ n. IsInside cap r n r.start) (sym (some_inj p)) q),
      )

  -- The report says that all citations resolve exactly if each reference of each capability names a
  -- file that exists and, with lines, a first line from 1 on and a last line inside the file, or,
  -- without lines, stands in a capability that is not admitted.
  pub evidence_check_iff :
      (caps : List Capability)
      → ((evidence_check count_lines caps).all_resolve ≡ true)
        ↔ All (λ cap. All (IsResolved cap) (references_of cap)) caps
  unfolding evidence_check
  evidence_check_iff caps = (
    λ h.
        All-imp
          (λ cap q.
            All-imp (λ r. (IsResolved-iff cap r).0) (references_of cap)
              ((flat_map-eq-nil (reference_problems count_lines cap) (references_of cap)).0 q))
          caps ((flat_map-eq-nil _ caps).0 ((is_empty_iff _).0 h)),
    λ h. (is_empty_iff _).1 (
        (flat_map-eq-nil _ caps).1 (
          All-imp
            (λ cap q.
              (flat_map-eq-nil (reference_problems count_lines cap) (references_of cap)).1
                (All-imp (λ r. (IsResolved-iff cap r).1) (references_of cap) q))
            caps h)),
  )
