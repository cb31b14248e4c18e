-- ===== src/Conformance/Main/Documents.antt =====
-- What a document without findings holds, and the event stream of a run.
use Prim.Native.String.{◌++◌ as ◌<>◌}
use ggen_igniter.Base.{
  String, List, [], ◌∷◌, ◌++◌, Bool, false, ◌≡◌, ap, ◌∙◌, arith, filter, is_empty, append-eq-nil,
  map-eq-nil, filter-eq-nil, if◌then◌else◌, ◌==◌, string_eq, All,
}
use ggen_igniter.Base.Exec.{Result, ok, ◌>>=◌, >>=-eq-ok, ok_inj}
use ggen_igniter.Ocel.{Doc, Event, or_empty, events_of}
use ggen_igniter.Conformance.{Violation, Ledger, ledger_label, seal_aborted}
use ggen_igniter.Conformance.Structure.{check_structure}
use ggen_igniter.Conformance.Structure.Laws.{IsStructured, check_structure_iff}
use ggen_igniter.Conformance.Seal.{check_seal_ledger, is_seal, phase_of_name}
use ggen_igniter.Conformance.Seal.Laws.{IsCorroborated, check_seal_ledger_iff}
use ggen_igniter.Conformance.Main.{
  is_absent, key_violations, sealed_types, seal_violations_of, check_document, check_documents,
}

-- A document of a run that gives no finding.
pub record IsSound (run : String) (ledger : Ledger) (name : String) (doc : Doc) : Type 0 where
  pub has_event_types : is_absent doc.event_types ≡ false
  pub has_object_types : is_absent doc.object_types ≡ false
  pub has_events : is_absent doc.events ≡ false
  pub has_objects : is_absent doc.objects ≡ false
  pub structured : IsStructured doc
  pub seals : List String
  pub sealed : sealed_types (or_empty doc.events) ≡ ok seals
  pub has_seal : is_empty seals ≡ false
  pub applied : All (λ t. (t == seal_aborted) ≡ false) seals
  pub corroborated :
      is_empty ledger ≡ false
      → All
          (IsCorroborated (ledger_label (phase_of_name name) run) ledger)
          (filter is_seal (or_empty doc.events))

-- The events of the documents, in order.
unfoldable pub stream_of : List (String × Doc) → Result (List Event)
stream_of [] = ok []
stream_of ((name, doc) ∷ docs) = do
  events ← events_of (or_empty doc.events)
  rest ← stream_of docs
  ok (events ++ rest)

keys_quiet :
    (place : String) (doc : Doc)
    → key_violations place doc ≡ []
    → (is_absent doc.event_types ≡ false)
      × (is_absent doc.object_types ≡ false)
      × (is_absent doc.events ≡ false)
      × (is_absent doc.objects ≡ false)
unfolding key_violations
keys_quiet place doc h =
    let (a, r₁) = (append-eq-nil _ _).0 h in
    let (b, r₂) = (append-eq-nil _ _).0 r₁ in
    let (c, d) = (append-eq-nil _ _).0 r₂ in (there _ _ a, there _ _ b, there _ _ c, there _ _ d)
  where
    there : (b : Bool) (x : Violation) → (if b then x ∷ [] else []) ≡ [] → b ≡ false
    there b x h = ground (arith, h)

seals_quiet :
    (place : String) (seals : List String)
    → seal_violations_of place seals ≡ []
    → (is_empty seals ≡ false) × All (λ t. (t == seal_aborted) ≡ false) seals
unfolding seal_violations_of
seals_quiet place seals h =
    let (a, b) = (append-eq-nil _ _).0 h in
    (there _ _ a, (filter-eq-nil (λ t. t == seal_aborted) seals).0 (map-eq-nil _ _ b))
  where
    there : (b : Bool) (x : Violation) → (if b then x ∷ [] else []) ≡ [] → b ≡ false
    there b x h = ground (arith, h)

corroboration_quiet :
    (place run name : String) (doc : Doc) (ledger : Ledger)
    → (if is_empty ledger then ok [] else check_seal_ledger place run name doc ledger) ≡ ok []
    → is_empty ledger ≡ false
    → All
        (IsCorroborated (ledger_label (phase_of_name name) run) ledger)
        (filter is_seal (or_empty doc.events))
corroboration_quiet place run name doc ledger h n =
    (check_seal_ledger_iff place run name doc ledger).0 (rw n at h)

-- A document without findings is sound, and gives the stream its events.
pub document-IsSound :
    (run : String) (ledger : Ledger) (name : String) (doc : Doc) (r : List Violation × List Event)
    → check_document run ledger name doc ≡ ok r
    → r.0 ≡ []
    → IsSound run ledger name doc × (events_of (or_empty doc.events) ≡ ok r.1)
unfolding check_document
document-IsSound run ledger name doc r h quiet =
    let (structure, p, h₁) = >>=-eq-ok (check_structure place doc) _ h in
    let (seals, q, h₂) = >>=-eq-ok (sealed_types (or_empty doc.events)) _ h₁ in
    let (corroboration, s, h₃) =
      >>=-eq-ok (if is_empty ledger then ok [] else check_seal_ledger place run name doc ledger) _
        h₂ in
    let (events, t, h₄) = >>=-eq-ok (events_of (or_empty doc.events)) _ h₃ in
    let e = ok_inj h₄ in
    let (no_key, r₁) = (append-eq-nil _ _).0 (ap (λ p. p.0) e ∙ quiet) in
    let (no_structure, r₂) = (append-eq-nil _ _).0 r₁ in
    let (no_seal, no_corroboration) = (append-eq-nil _ _).0 r₂ in
    let (k₁, k₂, k₃, k₄) = keys_quiet place doc no_key in
    let (one, applied) = seals_quiet place seals no_seal in
    (
      record {
        has_event_types = k₁;
        has_object_types = k₂;
        has_events = k₃;
        has_objects = k₄;
        structured = (check_structure_iff place doc).0 (p ∙ ap ok no_structure);
        seals = seals;
        sealed = q;
        has_seal = one;
        applied = applied;
        corroborated = corroboration_quiet place run name doc ledger (s ∙ ap ok no_corroboration);
      },
      t ∙ ap (λ p. ok (p.1)) e,
    )
  where
    place : String
    place = run <> ("/" <> name)

-- If the loop over the documents of a run returns and finds nothing, each document has its four keys,
-- is structured, has a seal and none of an aborted run, and has its seals in the ledger if the ledger
-- is not empty, and the loop returns the events of the documents in order.
pub documents-IsSound :
    (run : String) (ledger : Ledger) (docs : List (String × Doc)) (r : List Violation × List Event)
    → check_documents run ledger docs ≡ ok r
    → r.0 ≡ []
    → All (λ d. IsSound run ledger d.0 d.1) docs × (stream_of docs ≡ ok r.1)
unfolding check_documents stream_of
documents-IsSound run ledger [] r h quiet = (tt, ap (λ p. ok (p.1)) (ok_inj h))
documents-IsSound run ledger ((name, doc) ∷ docs) r h quiet =
    let (here, p, h₁) = >>=-eq-ok (check_document run ledger name doc) _ h in
    let (rest, q, h₂) = >>=-eq-ok (check_documents run ledger docs) _ h₁ in
    let e = ok_inj h₂ in
    let (none_here, none_after) = (append-eq-nil here.0 rest.0).0 (ap (λ p. p.0) e ∙ quiet) in
    let (sound, events) = document-IsSound run ledger name doc here p none_here in
    let (sounds, stream) = documents-IsSound run ledger docs rest q none_after in
    ((sound, sounds), rw (events, stream) (ap (λ p. ok (p.1)) e))
