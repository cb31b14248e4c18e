-- ===== src/Conformance/Main/Runs.antt =====
-- What a run without findings says of its event stream.
use Prim.Native.String.{◌++◌ as ◌<>◌}
use ggen_igniter.Base.{
  String, Option, some, List, length, refl, ◌↔◌, ◌+◌, [], ◌∷◌, true, false, ◌≡◌, ap, ◌∙◌, inl, inr,
  is_empty, append-eq-nil, if◌then◌else◌, contains, map, string_eq, option_eq, All, Bool-cases,
}
use ggen_igniter.Base.Exec.{ok, >>=-eq-ok, ok_inj}
use ggen_igniter.Base.Text.{path_join}
use ggen_igniter.Ocel.{Event, option_le}
use ggen_igniter.Conformance.{Step, Ledger, Capability, missing_directory}
use ggen_igniter.Conformance.Parse.{parse_admitted}
use ggen_igniter.Conformance.Coverage.{check_coverage}
use ggen_igniter.Conformance.Coverage.Covered.{IsCovered}
use ggen_igniter.Conformance.Coverage.Laws.{IsSortable, check_coverage_iff}
use ggen_igniter.Conformance.Streams.{of_type, phases_of}
use ggen_igniter.Conformance.Streams.Laws.{
  IsAdmitted, IsPhased, check_admission_iff, check_refusal_iff, check_order_iff,
}
use ggen_igniter.Conformance.Subjects.{check_subjects_on_disk}
use ggen_igniter.Conformance.Subjects.Laws.{IsOnDisk, check_subjects_on_disk_iff}
use ggen_igniter.Conformance.Main.{
  World, RunResult, Summary, sorted_options, check_documents, documents, check_stream, check_run,
}
use ggen_igniter.Conformance.Main.Names.{IsListable, sorted_options-ok, sorted_options-IsListable}
use ggen_igniter.Conformance.Main.Accepted.{documents-accepts}
use ggen_igniter.Base.Sort.{sort, to_set}
use ggen_igniter.Conformance.Main.Documents.{IsSound, stream_of, documents-IsSound}

-- The names of a stream that its summary lists.
abbrev pub composed_tasks : List Event → List (Option String)
composed_tasks stream = map (λ (e : Event). e.task) (of_type "task_composed" stream)

abbrev pub guarded_subjects : List Event → List (Option String)
guarded_subjects stream = map (λ (e : Event). e.subject) (of_type "task_admission_refused" stream)

abbrev pub refused_tasks : List Event → List (Option String)
refused_tasks stream = map (λ (e : Event). e.task) (of_type "capability_refused" stream)

abbrev listed : List (Option String) → List (Option String)
listed names = sort option_le (to_set names)

-- The summary of a stream.
abbrev pub summary_of : List Event → Summary
summary_of stream = record {
  events = length stream;
  composed = listed (composed_tasks stream);
  composed_count = length (of_type "task_composed" stream);
  decisions =
      length (of_type "task_composed" stream) + length (of_type "task_admission_refused" stream);
  guarded_admission_refused = listed (guarded_subjects stream);
  capability_refused = listed (refused_tasks stream);
}

-- What a run without findings adds to the result.
abbrev pub quiet_result : List Event → RunResult
quiet_result stream = record { violations = []; summary = some (summary_of stream) }

module _ (w : World) (fixture out_dir : String) (plan : List Step) (ledger : Ledger) where
  -- The event stream of a run that gives no finding.
  pub record IsLawful (stream : List Event) : Type 0 where
    pub covered : is_empty plan ≡ false → IsSortable stream × IsCovered plan stream
    pub admitted : All (IsAdmitted (parse_admitted w.ontology)) (of_type "task_composed" stream)
    pub refused :
        All
          (λ (c : String × Capability).
            c.1.admitted ≡ false → contains (refused_tasks stream) (some c.0) ≡ true)
          (parse_admitted w.ontology)
    pub phased : IsPhased (phases_of stream)
    pub on_disk :
        w.is_dir fixture ≡ true → All (IsOnDisk w.is_file fixture) (of_type "task_composed" stream)
    pub composed_listed : IsListable (composed_tasks stream)
    pub guarded_listed : IsListable (guarded_subjects stream)
    pub refused_listed : IsListable (refused_tasks stream)

  coverage_iff :
      (run : String) (stream : List Event)
      → ((if is_empty plan then ok [] else check_coverage run plan stream) ≡ ok [])
        ↔ (is_empty plan ≡ false → IsSortable stream × IsCovered plan stream)
  coverage_iff run stream = (
    λ h n. (check_coverage_iff run plan stream).0 (rw n at h),
    λ h. elim (Bool-cases (is_empty plan)) [
      | inl p ↦ rw p refl
      | inr p ↦ rw p ((check_coverage_iff run plan stream).1 (h p))
    ],
  )

  disk_iff :
      (run : String) (composed : List Event)
      → ((if w.is_dir fixture then check_subjects_on_disk w.is_file run fixture composed else [])
          ≡ [])
        ↔ (w.is_dir fixture ≡ true → All (IsOnDisk w.is_file fixture) composed)
  disk_iff run composed = (
    λ h d. (check_subjects_on_disk_iff w.is_file fixture run composed).0 (rw d at h),
    λ h. elim (Bool-cases (w.is_dir fixture)) [
      | inl p ↦ rw p ((check_subjects_on_disk_iff w.is_file fixture run composed).1 (h p))
      | inr p ↦ rw p refl
    ],
  )

  stream-IsLawful :
      (run : String) (stream : List Event) (r : RunResult)
      → check_stream w fixture out_dir plan ledger run stream ≡ ok r
      → r.violations ≡ []
      → IsLawful stream
  unfolding check_stream
  stream-IsLawful run stream r h quiet =
      let (coverage, p, h₁) =
        >>=-eq-ok (if is_empty plan then ok [] else check_coverage run plan stream) _ h in
      let (composed, p₁, h₂) = >>=-eq-ok (sorted_options (composed_tasks stream)) _ h₁ in
      let (guarded, p₂, h₃) = >>=-eq-ok (sorted_options (guarded_subjects stream)) _ h₂ in
      let (refused, p₃, h₄) = >>=-eq-ok (sorted_options (refused_tasks stream)) _ h₃ in
      let none_found = ap (λ (x : RunResult). x.violations) (ok_inj h₄) ∙ quiet in
      let (c, r₁) = (append-eq-nil _ _).0 none_found in
      let (a, r₂) = (append-eq-nil _ _).0 r₁ in
      let (f, r₃) = (append-eq-nil _ _).0 r₂ in
      let (o, d) = (append-eq-nil _ _).0 r₃ in
      record {
        covered = (coverage_iff run stream).0 (p ∙ ap ok c);
        admitted =
            (check_admission_iff run (parse_admitted w.ontology) (of_type "task_composed" stream)).0
              a;
        refused = (check_refusal_iff run (parse_admitted w.ontology) (refused_tasks stream)).0 f;
        phased = (check_order_iff run stream).0 o;
        on_disk = (disk_iff run (of_type "task_composed" stream)).0 d;
        composed_listed = sorted_options-IsListable (composed_tasks stream) composed p₁;
        guarded_listed = sorted_options-IsListable (guarded_subjects stream) guarded p₂;
        refused_listed = sorted_options-IsListable (refused_tasks stream) refused p₃;
      }

  stream-accepts :
      (run : String) (stream : List Event)
      → IsLawful stream
      → check_stream w fixture out_dir plan ledger run stream ≡ ok (quiet_result stream)
  unfolding check_stream
  stream-accepts run stream l =
      rw
        (
          (coverage_iff run stream).1 l.covered,
          sorted_options-ok (composed_tasks stream) l.composed_listed,
          sorted_options-ok (guarded_subjects stream) l.guarded_listed,
          sorted_options-ok (refused_tasks stream) l.refused_listed,
          (check_admission_iff run (parse_admitted w.ontology) (of_type "task_composed" stream)).1
              l.admitted,
          (check_refusal_iff run (parse_admitted w.ontology) (refused_tasks stream)).1 l.refused,
          (check_order_iff run stream).1 l.phased,
          (disk_iff run (of_type "task_composed" stream)).1 l.on_disk,
        )
        refl

  -- A run whose directory is there, whose documents are sound, and whose stream is lawful.
  pub record IsSoundRun (run : String) : Type 0 where
    pub has_directory : w.is_dir (path_join out_dir ("ocel-" <> run)) ≡ true
    pub sound_documents :
        All
          (λ d. IsSound run ledger d.0 d.1)
          (documents w fixture out_dir plan ledger (path_join out_dir ("ocel-" <> run)))
    pub stream : List Event
    pub streamed :
        stream_of (documents w fixture out_dir plan ledger (path_join out_dir ("ocel-" <> run)))
        ≡ ok stream
    pub lawful : IsLawful stream

  -- A run without findings is sound.
  pub run-IsSoundRun :
      (run : String) (r : RunResult)
      → check_run w fixture out_dir plan ledger run ≡ ok r
      → r.violations ≡ []
      → IsSoundRun run
  unfolding check_run
  run-IsSoundRun run r h quiet = elim (Bool-cases (w.is_dir dir)) [
    | inl p ↦
        let (docs, q, h₁) =
          >>=-eq-ok (check_documents run ledger (documents w fixture out_dir plan ledger dir)) _
            (rw (p, check_run) at h) in
        let (stream, s, h₂) =
          >>=-eq-ok (check_stream w fixture out_dir plan ledger run docs.1) _ h₁ in
        let (no_doc, no_stream) =
          (append-eq-nil docs.0 stream.violations).0
            (ap (λ (x : RunResult). x.violations) (ok_inj h₂) ∙ quiet) in
        let (sound, streamed) =
          documents-IsSound run ledger (documents w fixture out_dir plan ledger dir) docs q
            no_doc in
        record {
          has_directory = p;
          sound_documents = sound;
          stream = docs.1;
          streamed = streamed;
          lawful = stream-IsLawful run docs.1 stream s no_stream;
        }
    | inr p ↦
        absurd (
          reported (ap (λ (x : RunResult). x.violations) (ok_inj (rw (p, check_run) at h)) ∙ quiet))
  ]
    where
      dir : String
      dir = path_join out_dir ("ocel-" <> run)

      reported : missing_directory run ∷ [] ≡ [] → ⊥
      reported h = cc

  -- A run that is sound returns the summary of its stream, and no finding.
  pub run-accepts :
      (run : String) (s : IsSoundRun run)
      → check_run w fixture out_dir plan ledger run ≡ ok (quiet_result s.stream)
  unfolding check_run
  run-accepts run s =
      rw (s.has_directory, check_run)
        (rw
          (
            documents-accepts run ledger
                (documents w fixture out_dir plan ledger (path_join out_dir ("ocel-" <> run)))
                s.stream s.sound_documents s.streamed,
            stream-accepts run s.stream s.lawful,
          )
          refl)
