-- ===== src/Conformance/Main/Accepted.antt =====
-- The runs that the checks accept: sound documents and a lawful stream give no finding.
use Prim.Native.String.{◌++◌ as ◌<>◌}
use ggen_igniter.Base.{
  String, List, [], ◌∷◌, false, ◌≡◌, refl, ap, inl, inr, is_empty, filter-eq-nil, if◌then◌else◌,
  ◌==◌, string_eq, option_eq, All, Bool-cases,
}
use ggen_igniter.Base.Exec.{ok, >>=-eq-ok, ok_inj}
use ggen_igniter.Ocel.{Doc, Event, or_empty, events_of}
use ggen_igniter.Conformance.{Ledger, seal_aborted}
use ggen_igniter.Conformance.Structure.Laws.{check_structure_iff}
use ggen_igniter.Conformance.Seal.{check_seal_ledger}
use ggen_igniter.Conformance.Seal.Laws.{check_seal_ledger_iff}
use ggen_igniter.Conformance.Main.{
  is_absent, key_violations, seal_violations_of, check_document, check_documents,
}
use ggen_igniter.Conformance.Main.Documents.{IsSound, stream_of}

keys_none :
    (place : String) (doc : Doc)
    → is_absent doc.event_types ≡ false
    → is_absent doc.object_types ≡ false
    → is_absent doc.events ≡ false
    → is_absent doc.objects ≡ false
    → key_violations place doc ≡ []
unfolding key_violations
keys_none place doc a b c d = rw (a, b, c, d) refl

seals_none :
    (place : String) (seals : List String)
    → is_empty seals ≡ false
    → All (λ t. (t == seal_aborted) ≡ false) seals
    → seal_violations_of place seals ≡ []
unfolding seal_violations_of
seals_none place seals a b = rw (a, (filter-eq-nil (λ t. t == seal_aborted) seals).1 b) refl

corroborated_none :
    (run : String) (ledger : Ledger) (name : String) (doc : Doc)
    → IsSound run ledger name doc
    → (if is_empty ledger
        then ok []
        else check_seal_ledger (run <> ("/" <> name)) run name doc ledger)
      ≡ ok []
corroborated_none run ledger name doc s = elim (Bool-cases (is_empty ledger)) [
  | inl p ↦ rw p refl
  | inr p ↦ rw p ((check_seal_ledger_iff _ run name doc ledger).1 (s.corroborated p))
]

document-accepts :
    (run : String) (ledger : Ledger) (name : String) (doc : Doc) (events : List Event)
    → IsSound run ledger name doc
    → events_of (or_empty doc.events) ≡ ok events
    → check_document run ledger name doc ≡ ok ([], events)
unfolding check_document
document-accepts run ledger name doc events s e =
    rw
      (
        (check_structure_iff (run <> ("/" <> name)) doc).1 s.structured,
        s.sealed,
        corroborated_none run ledger name doc s,
        e,
        keys_none (run <> ("/" <> name)) doc s.has_event_types s.has_object_types s.has_events
            s.has_objects,
        seals_none (run <> ("/" <> name)) s.seals s.has_seal s.applied,
      )
      refl

-- The loop over documents that are sound returns their events, and no finding.
pub documents-accepts :
    (run : String) (ledger : Ledger) (docs : List (String × Doc)) (events : List Event)
    → All (λ d. IsSound run ledger d.0 d.1) docs
    → stream_of docs ≡ ok events
    → check_documents run ledger docs ≡ ok ([], events)
unfolding check_documents stream_of
documents-accepts run ledger [] events s e = ap (λ es. ok ([], es)) (ok_inj e)
documents-accepts run ledger ((name, doc) ∷ docs) events (s, ss) e =
    let (here, p, e₁) = >>=-eq-ok (events_of (or_empty doc.events)) _ e in
    let (rest, q, e₂) = >>=-eq-ok (stream_of docs) _ e₁ in
    rw (document-accepts run ledger name doc here s p, documents-accepts run ledger docs rest ss q)
      (ap (λ es. ok ([], es)) (ok_inj e₂))
