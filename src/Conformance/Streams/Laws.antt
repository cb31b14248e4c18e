-- ===== src/Conformance/Streams/Laws.antt =====
-- What the checks of ADMISSION, REFUSAL and ORDER accept.
use ggen_igniter.Base.{
  String, Option, none, some, List, [], ◌∷◌, Bool, true, false, ◌≡◌, ◌≢◌, refl, sym, ◌∙◌, ◌↔◌, inl,
  inr, arith, flat_map-eq-nil, ◌==◌, contains, eq_of_beq, eq_self, Bool-cases, All, All-imp,
  string_eq, option_eq,
}
use ggen_igniter.Base.Dict.{Dict, lookup}
use ggen_igniter.Ocel.{Value, text, Event, value_eq}
use ggen_igniter.Conformance.{Violation, Capability}
use ggen_igniter.Conformance.Streams.{
  capability_of, admission_of, check_admission, refusal_of, check_refusal, scan_phases, phases_of,
  check_order,
}

-- The event's task is declared, and admitted.
abbrev pub IsAdmitted : Dict String Capability → Event → Type 0
IsAdmitted caps e =
    (task : String) × (cap : Capability) × (e.task ≡ some task)
    × (lookup task caps ≡ some cap)
    × (cap.admitted ≡ true)

admission_quiet :
    (run : String) (e : Event) (found : Option Capability)
    → admission_of run e found ≡ []
    → (cap : Capability) × (found ≡ some cap) × (cap.admitted ≡ true)
unfolding admission_of
admission_quiet run e none h = absurd (ground arith)
admission_quiet run e (some cap) h = (cap, refl, ground arith)

capability_found :
    (caps : Dict String Capability) (task : Option String) (cap : Capability)
    → capability_of caps task ≡ some cap
    → (t : String) × (task ≡ some t) × (lookup t caps ≡ some cap)
unfolding capability_of
capability_found caps none cap h = absurd (ground arith)
capability_found caps (some t) cap h = (t, refl, h)

-- No composed event is reported exactly if each of them carries a task that the ontology declares
-- and admits.
pub check_admission_iff :
    (run : String) (caps : Dict String Capability) (composed : List Event)
    → (check_admission run caps composed ≡ []) ↔ All (IsAdmitted caps) composed
unfolding check_admission
check_admission_iff run caps composed = (
  λ h. All-imp admitted composed ((flat_map-eq-nil report composed).0 h),
  λ h. (flat_map-eq-nil report composed).1 (All-imp quiet composed h),
)
  where
    report : Event → List Violation
    report e = admission_of run e (capability_of caps e.task)

    admitted : (e : Event) → report e ≡ [] → IsAdmitted caps e
    admitted e h =
        let (cap, found, yes_) = admission_quiet run e (capability_of caps e.task) h in
        let (t, named, declared) = capability_found caps e.task cap found in
        (t, cap, named, declared, yes_)

    quiet : (e : Event) → IsAdmitted caps e → report e ≡ []
    quiet e (t, cap, named, declared, yes_) =
        unfold admission_of capability_of in rw (named, declared, yes_)

-- No capability is reported as skipped exactly if each is admitted or has a refusal event.
pub check_refusal_iff :
    (run : String) (caps : Dict String Capability) (refused : List (Option String))
    → (check_refusal run caps refused ≡ [])
      ↔ All
          (λ (c : String × Capability). c.1.admitted ≡ false → contains refused (some c.0) ≡ true)
          caps
unfolding check_refusal
check_refusal_iff run caps refused = (
  λ h.
      All-imp (λ (task, cap) q n. unfold refusal_of in ground arith) caps
        ((flat_map-eq-nil (refusal_of run refused) caps).0 h),
  λ h.
      (flat_map-eq-nil (refusal_of run refused) caps).1
        (All-imp (λ (task, cap) q. unfold refusal_of in ground arith) caps h),
)

-- Every base phase stands before every core phase.
abbrev pub IsPhased : List Value → Type 0
IsPhased [] = Unit
IsPhased (p ∷ ps) = (p ≡ text "core" → All (λ q. q ≢ text "base") ps) × IsPhased ps

core_ne_base : ◌≢◌ {A = Value} (text "core") (text "base")
core_ne_base e = cc ((value_eq.beq_iff (text "core") (text "base")).1 e)

module _ (run : String) where
  scan_quiet :
      (seen : Bool) (ps : List Value)
      → scan_phases run seen ps ≡ []
      → (seen ≡ true → All (λ q. q ≢ text "base") ps) × IsPhased ps
  unfolding scan_phases
  scan_quiet seen [] h = (λ _. tt, tt)
  scan_quiet seen (p ∷ ps) h = elim (Bool-cases (p == text "core")) [
    | inl core ↦
        let (none_after, phased) = scan_quiet true ps (ground (arith, core)) in
        (λ s. (not_base core, none_after refl), (λ c. none_after refl, phased))
    | inr other ↦ elim (Bool-cases (p == text "base")) [
      | inl base ↦ elim (Bool-cases seen) [
        | inl late ↦ absurd (ground (arith, other, base, late))
        | inr early ↦
            let (none_after, phased) = scan_quiet seen ps (ground (arith, other, base, early)) in
            (λ s. absurd (ground (arith, early)), (λ c. absurd (not_core other c), phased))
      ]
      | inr neither ↦
          let (none_after, phased) = scan_quiet seen ps (ground (arith, other, neither)) in
          (
            λ s. (λ b. absurd (ground (arith, neither, b, eq_self (text "base"))), none_after s),
            (λ c. absurd (not_core other c), phased),
          )
    ]
  ]
    where
      not_base : (p == text "core") ≡ true → p ≢ text "base"
      not_base core b = core_ne_base (sym (eq_of_beq p (text "core") core) ∙ b)

      not_core : (p == text "core") ≡ false → p ≡ text "core" → ⊥
      not_core other c = ground (arith, other, c, eq_self (text "core"))

  scan_ok :
      (seen : Bool) (ps : List Value)
      → (seen ≡ true → All (λ q. q ≢ text "base") ps)
      → IsPhased ps
      → scan_phases run seen ps ≡ []
  unfolding scan_phases
  scan_ok seen [] f h = refl
  scan_ok seen (p ∷ ps) f h = elim (Bool-cases (p == text "core")) [
    | inl core ↦
        let rest = scan_ok true ps (λ _. h.0 (eq_of_beq p (text "core") core)) h.1 in
        ground (arith, core, rest)
    | inr other ↦ elim (Bool-cases seen) [
      | inl late ↦
          let rest = scan_ok seen ps (λ s. (f s).1) h.1 in
          ground (arith, other, late, rest, (f late).0, eq_of_beq p (text "base"))
      | inr early ↦
          let rest = scan_ok seen ps (λ s. absurd (ground (arith, early))) h.1 in
          ground (arith, other, early, rest)
    ]
  ]

-- No event of the base phase is reported exactly if, among the phases that the events name, none
-- that is "base" stands after one that is "core".
pub check_order_iff :
    (run : String) (events : List Event)
    → (check_order run events ≡ []) ↔ IsPhased (phases_of events)
unfolding check_order
check_order_iff run events = (
  λ h. (scan_quiet run false (phases_of events) h).1,
  λ h. scan_ok run false (phases_of events) (λ s. absurd (ground arith)) h,
)
