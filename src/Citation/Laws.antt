-- ===== src/Citation/Laws.antt =====
-- What it takes for every citation to be anchored.
use Prim.Native.Nat.{◌<◌, ◌≤◌}
use mathlib.Core.Path.{subst}
use ggen_igniter.Base.{
  cons_ne_nil, some_inj, none_ne_some, ℕ, String, Option, none, some, List, [], true, false, not,
  ◌&&◌, ◌||◌, ◌≡◌, refl, ◌↔◌, inl, inr, arith, flat_map, flat_map-eq-nil, is_empty, is_empty_iff,
  ltb, length, map, eq_iff_eq, contains, string_eq, Bool-cases, All, All-imp, All-map, All-of_map,
  and_iff, filter-eq-nil, ap, sym, ◌∙◌,
}
use ggen_igniter.Base.Dict.{Dict, lookup}
use ggen_igniter.Base.Sort.{str_le, All-sort}
use ggen_igniter.Base.Text.{is_infix, join}
use ggen_igniter.Citation.{
  Pin, Citation, Drift, end_line, pin_finding, pin_findings, sorted_pins, check_pins, window,
  anchor_misses, file_misses, is_skipped, citation_misses, citation_check,
}

-- The lines that a citation names, in a file with these lines, and its symbol in their text.
pub record IsAnchored (c : Citation) (lines : List String) : Type 0 where
  pub first : ℕ
  pub last : ℕ
  pub starts : c.line ≡ some first
  pub ends : end_line c ≡ some last
  pub positive : 0 < first
  pub ordered : first ≤ last
  pub inside : last ≤ length lines
  pub mentions : is_infix c.symbol (join "\n" (window first last lines)) ≡ true

range_iff :
    (first last total : ℕ)
    → (ltb first 1 || (ltb total last || ltb last first) ≡ false)
      ↔ ((0 < first) × (first ≤ last) × (last ≤ total))
range_iff first last total = (
  λ h. (ground (arith, h), ground (arith, h), ground (arith, h)),
  λ (p, q, r). ground (arith, p, q, r),
)

misses_quiet :
    (c : Citation) (lines : List String) (l e : Option ℕ)
    → c.line ≡ l
    → end_line c ≡ e
    → anchor_misses c lines l e ≡ []
    → IsAnchored c lines
unfolding anchor_misses
misses_quiet c lines none e p q h = absurd (cons_ne_nil h)
misses_quiet c lines (some first) none p q h = absurd (cons_ne_nil h)
misses_quiet c lines (some first) (some last) p q h =
    elim (Bool-cases (ltb first 1 || (ltb (length lines) last || ltb last first))) [
      | inl bad ↦ absurd (ground (arith, bad, h))
      | inr good ↦
          let (a, b, d) = (range_iff first last (length lines)).0 good in
          record {
            first = first;
            last = last;
            starts = p;
            ends = q;
            positive = a;
            ordered = b;
            inside = d;
            mentions = ground (arith, good, h);
          }
    ]

anchor_iff :
    (c : Citation) (lines : List String) → (file_misses c (some lines) ≡ []) ↔ IsAnchored c lines
unfolding file_misses anchor_misses
anchor_iff c lines = (
  misses_quiet c lines c.line (end_line c) refl refl,
  λ a. quiet a c.line (end_line c) a.starts a.ends,
)
  where
    quiet :
        (a : IsAnchored c lines) (l e : Option ℕ)
        → l ≡ some a.first
        → e ≡ some a.last
        → anchor_misses c lines l e ≡ []
    quiet a l e p q = rw (
      p,
      q,
      (range_iff a.first a.last (length lines)).1 (a.positive, a.ordered, a.inside),
      a.mentions,
    )

read_iff :
    (c : Citation) (o : Option (List String))
    → (file_misses c o ≡ []) ↔ ((lines : List String) × (o ≡ some lines) × IsAnchored c lines)
read_iff c none = (λ h. absurd (gone h), λ (lines, p, a). absurd (none_ne_some p))
  where
    gone : file_misses c none ≡ [] → ⊥
    gone h = unfold file_misses in cons_ne_nil h
read_iff c (some lines) = (
  λ h. (lines, refl, (anchor_iff c lines).0 h),
  λ (l, p, a). (anchor_iff c lines).1 (subst (IsAnchored c) (sym (some_inj p)) a),
)

pin_quiet : (pin : Pin) (o : Option String) → (pin_finding pin o ≡ []) ↔ (o ≡ some pin.version)
unfolding pin_finding
pin_quiet pin none = (λ h. (cc), λ h. (cc))
pin_quiet pin (some actual) = (
  λ h. ap some ((eq_iff_eq actual pin.version).0 (ground (arith, h))),
  λ h. rw ((eq_iff_eq actual pin.version).1 (some_inj h)),
)

-- The lock file resolves every pin to the declared version.
abbrev pub IsReconciled : Dict String String → Dict String Pin → Type 0
IsReconciled resolved = All (λ (p : String × Pin). lookup p.1.dep resolved ≡ some p.1.version)

pins_iff :
    (resolved : Dict String String) (pins : Dict String Pin)
    → All (λ p. pin_findings resolved p ≡ []) (sorted_pins pins) ↔ IsReconciled resolved pins
unfolding pin_findings sorted_pins
pins_iff resolved pins = (
  λ h.
      All-imp (λ (p : String × Pin) q. (pin_quiet p.1 (lookup p.1.dep resolved)).0 q) pins
        (All-of_map Quiet (λ (p : String × Pin). p.1) pins
          ((All-sort Quiet (λ (p q : Pin). str_le p.dep q.dep)
              (map (λ (p : String × Pin). p.1) pins)).0
            h)),
  λ h.
      (All-sort Quiet (λ (p q : Pin). str_le p.dep q.dep) (map (λ (p : String × Pin). p.1) pins)).1
        (All-map Quiet (λ (p : String × Pin). p.1) pins
          (All-imp (λ (p : String × Pin) q. (pin_quiet p.1 (lookup p.1.dep resolved)).1 q) pins h)),
)
  where
    Quiet : Pin → Type 0
    Quiet p = pin_finding p (lookup p.dep resolved) ≡ []

check_pins_quiet :
    (lock_path : String) (resolved : Dict String String) (pins : Dict String Pin)
    → IsReconciled resolved pins
    → check_pins lock_path (some resolved) pins ≡ ([], [])
unfolding check_pins
check_pins_quiet lock_path resolved pins h =
    let quiet = (pins_iff resolved pins).1 h in
    rw (
      (flat_map-eq-nil (pin_findings resolved) (sorted_pins pins)).1 quiet,
      (filter-eq-nil (λ p. not (is_empty (pin_findings resolved p))) (sorted_pins pins)).1
          (All-imp (λ p q. rw q) (sorted_pins pins) quiet),
    )

check_pins-IsReconciled :
    (lock_path : String) (resolved : Option (Dict String String)) (pins : Dict String Pin)
    → (check_pins lock_path resolved pins).0 ≡ []
    → (d : Dict String String) × (resolved ≡ some d) × IsReconciled d pins
unfolding check_pins
check_pins-IsReconciled lock_path none pins h = absurd (cons_ne_nil h)
check_pins-IsReconciled lock_path (some d) pins h =
    (d, refl, (pins_iff d pins).0 ((flat_map-eq-nil (pin_findings d) (sorted_pins pins)).0 h))

module _ (read : String → Option (List String)) (pins : Dict String Pin) where
  abbrev pub AreAnchored : List Citation → Type 0
  AreAnchored =
      All
        (λ (c : Citation). (lines : List String) × (read c.file ≡ some lines) × IsAnchored c lines)

  misses_iff :
      (citations : List Citation)
      → (flat_map (citation_misses read pins []) citations ≡ []) ↔ AreAnchored citations
  unfolding citation_misses is_skipped contains
  misses_iff citations = (
    λ h.
        All-imp (λ (c : Citation) q. (read_iff c (read c.file)).0 q) citations
          ((flat_map-eq-nil _ citations).0 h),
    λ h.
        (flat_map-eq-nil _ citations).1
          (All-imp (λ (c : Citation) q. (read_iff c (read c.file)).1 q) citations h),
  )

  -- The report calls all citations anchored exactly if there is a lock file, it resolves every
  -- declared pin to its version, and every citation's file exists, with the cited lines in order and
  -- inside it, and with the symbol in the text of these lines.
  pub citation_check_iff :
      (lock_path : String) (resolved : Option (Dict String String)) (citations : List Citation)
      → ((citation_check read pins lock_path resolved citations).all_anchored ≡ true) ↔ (
          ((d : Dict String String) × (resolved ≡ some d) × IsReconciled d pins)
          × AreAnchored citations)
  unfolding citation_check
  citation_check_iff lock_path resolved citations = (
    λ h.
        let (no_drift, no_miss) = (and_iff _ _).0 h in
        let (d, p, r) =
          check_pins-IsReconciled lock_path resolved pins ((is_empty_iff _).0 no_drift) in
        ((d, p, r), (misses_iff citations).0 (undrifted d p r ((is_empty_iff _).0 no_miss))),
    λ ((d, p, r), a). reported d p r ((misses_iff citations).1 a),
  )
    where
      pinned : Option (Dict String String) → List Drift × List String
      pinned o = check_pins lock_path o pins

      undrifted :
          (d : Dict String String)
          → resolved ≡ some d
          → IsReconciled d pins
          → flat_map (citation_misses read pins (pinned resolved).1) citations ≡ []
          → flat_map (citation_misses read pins []) citations ≡ []
      undrifted d p r h =
          subst
            (λ (f : List Drift × List String).
              flat_map (citation_misses read pins f.1) citations ≡ [])
            (ap pinned p ∙ check_pins_quiet lock_path d pins r) h

      reported :
          (d : Dict String String)
          → resolved ≡ some d
          → IsReconciled d pins
          → flat_map (citation_misses read pins []) citations ≡ []
          → (is_empty (pinned resolved).0
              && is_empty (flat_map (citation_misses read pins (pinned resolved).1) citations))
            ≡ true
      reported d p r h =
          subst
            (λ (f : List Drift × List String).
              (is_empty f.0 && is_empty (flat_map (citation_misses read pins f.1) citations))
              ≡ true)
            (sym (ap pinned p ∙ check_pins_quiet lock_path d pins r)) (rw h)
