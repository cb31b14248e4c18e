-- ===== src/Conformance/Seal/Laws.antt =====
-- `check_seal_ledger` reports nothing exactly if the ledger corroborates every seal.
use ggen_igniter.Base.{
  String, Option, none, some, List, [], ◌∷◌, ◌++◌, ◌≡◌, refl, ap, ◌∙◌, ◌↔◌, inl, inr, arith, filter,
  append-eq-nil, if◌then◌else◌, ◌==◌, eq_of_beq, eq_self, Bool-cases, All, string_eq, option_eq,
}
use ggen_igniter.Base.Dict.{lookup}
use ggen_igniter.Base.Exec.{ok, ok_inj, >>=-eq-ok}
use ggen_igniter.Ocel.{Value, RawEvent, Doc, or_empty, get_value, value_eq}
use ggen_igniter.Conformance.{Violation, mistyped_seal, LedgerRecord, Ledger, ledger_label}
use ggen_igniter.Conformance.Seal.{
  phase_of_name, is_seal, expected_activity, ledger_violations, seal_exit, seal_violations,
  seals_violations, check_seal_ledger,
}

-- The seal is typed as its own exit says, and the ledger's step of the label has the same exit.
abbrev pub IsCorroborated : String → Ledger → RawEvent → Type 0
IsCorroborated label ledger e =
    (exit : Value) × (rec : LedgerRecord) × (seal_exit e ≡ ok exit)
    × (e.type ≡ some (expected_activity exit))
    × (lookup label ledger ≡ some rec)
    × (get_value rec.exit ≡ exit)

module _ (place label : String) where
  ledger_quiet :
      (exit : Value) (found : Option LedgerRecord)
      → ledger_violations place label exit found ≡ []
      → (rec : LedgerRecord) × (found ≡ some rec) × (get_value rec.exit ≡ exit)
  unfolding ledger_violations
  ledger_quiet exit none h = absurd (ground arith)
  ledger_quiet exit (some rec) h = elim (Bool-cases (get_value rec.exit == exit)) [
    | inl p ↦ (rec, refl, eq_of_beq (get_value rec.exit) exit p)
    | inr p ↦ absurd (ground (arith, p))
  ]

  ledger_ok :
      (exit : Value) (rec : LedgerRecord)
      → get_value rec.exit ≡ exit
      → ledger_violations place label exit (some rec) ≡ []
  unfolding ledger_violations
  ledger_ok exit rec h = rw (h, eq_self exit)

  seal_iff :
      (ledger : Ledger) (e : RawEvent)
      → (seal_violations place label ledger e ≡ ok []) ↔ IsCorroborated label ledger e
  unfolding seal_violations
  seal_iff ledger e = (
    λ h.
        let (exit, ran, quiet) = >>=-eq-ok (seal_exit e) _ h in
        let (typed, corroborated) =
          (append-eq-nil (mistyped exit)
              (ledger_violations place label exit (lookup label ledger))).0
            (ok_inj quiet) in
        let (rec, found, same) = ledger_quiet exit (lookup label ledger) corroborated in
        (exit, rec, ran, well_typed exit typed, found, same),
    λ h. rw (h.2, h.4, ledger_ok h.0 h.1 h.5, h.3, eq_self (some (expected_activity h.0))),
  )
    where
      mistyped : Value → List Violation
      mistyped exit =
          if e.type == some (expected_activity exit)
          then []
          else mistyped_seal place e.id exit (expected_activity exit) ∷ []

      well_typed : (exit : Value) → mistyped exit ≡ [] → e.type ≡ some (expected_activity exit)
      well_typed exit h = elim (Bool-cases (e.type == some (expected_activity exit))) [
        | inl p ↦ eq_of_beq e.type (some (expected_activity exit)) p
        | inr p ↦ absurd (ground (arith, p))
      ]

  seals_iff :
      (ledger : Ledger) (es : List RawEvent)
      → (seals_violations place label ledger es ≡ ok []) ↔ All (IsCorroborated label ledger) es
  unfolding seals_violations
  seals_iff ledger [] = (λ h. tt, λ h. refl)
  seals_iff ledger (e ∷ es) = (
    λ h.
        let (here, ran, later) = >>=-eq-ok (seal_violations place label ledger e) _ h in
        let (rest, ran_rest, all_quiet) =
          >>=-eq-ok (seals_violations place label ledger es) (λ r. ok (here ++ r)) later in
        let (quiet, quiet_rest) = (append-eq-nil here rest).0 (ok_inj all_quiet) in
        (
          (seal_iff ledger e).0 (ran ∙ ap ok quiet),
          (seals_iff ledger es).0 (ran_rest ∙ ap ok quiet_rest),
        ),
    λ h. rw ((seal_iff ledger e).1 h.0, (seals_iff ledger es).1 h.1),
  )

-- The seal check returns, and with no finding, exactly if every seal of the document can be read, is
-- typed by the exit that it records, and the ledger has a step under the label of the document's
-- phase and run whose exit is the seal's.
pub check_seal_ledger_iff :
    (place run name : String) (doc : Doc) (ledger : Ledger)
    → (check_seal_ledger place run name doc ledger ≡ ok [])
      ↔ All
          (IsCorroborated (ledger_label (phase_of_name name) run) ledger)
          (filter is_seal (or_empty doc.events))
unfolding check_seal_ledger
check_seal_ledger_iff place run name doc ledger =
    seals_iff place (ledger_label (phase_of_name name) run) ledger
      (filter is_seal (or_empty doc.events))
