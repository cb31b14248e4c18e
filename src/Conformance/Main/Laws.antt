-- ===== src/Conformance/Main/Laws.antt =====
-- What exactly `main` accepts: the plan, the ledger and the two runs.
use ggen_igniter.Base.{
  length, ◌↔◌, ℕ, String, Option, some, List, [], ◌∷◌, Bool, true, false, ◌≡◌, refl, sym, ap, ◌∙◌,
  arith, is_empty, is_empty_iff, append-eq-nil, if◌then◌else◌, contains, string_eq, option_eq,
}
use ggen_igniter.Base.Exec.{ok, >>=-eq-ok, ok_inj}
use ggen_igniter.Ocel.{Event}
use ggen_igniter.Conformance.{Violation, Step, Ledger, load_ledger, fixture_not_directory}
use ggen_igniter.Conformance.Parse.{parse_plan}
use ggen_igniter.Conformance.Main.{
  World, RunResult, Verdict, check_run, guard_flip_of, load_plan, load_steps, conformance,
}
use ggen_igniter.Conformance.Main.Runs.{
  quiet_result, guarded_subjects, summary_of, IsSoundRun, run-IsSoundRun, run-accepts,
}
use ggen_igniter.Conformance.Main.Loaded.{
  ledger_path, task_pattern, plan_quiet, ledger_quiet, plan_loaded, steps_loaded,
}
use ggen_igniter.Conformance.Main.Flip.{flip_iff, flipped_step}

-- What a verdict of conformance rests on.
pub record IsConformant (w : World) (fixture out_dir : String) : Type 0 where
  pub has_fixture : w.is_dir fixture ≡ true
  pub task_file : String
  pub one_task : w.task_files ≡ task_file ∷ []
  pub planned : is_empty (parse_plan (w.read_task task_file)) ≡ false
  pub has_ledger : w.is_file (ledger_path out_dir) ≡ true
  pub no_label_twice : is_empty (load_ledger w.ledger_records).1 ≡ true
  pub sound_run1 :
      IsSoundRun w fixture out_dir
        (parse_plan (w.read_task task_file))
        (load_ledger w.ledger_records).0
        "run1"
  pub sound_run2 :
      IsSoundRun w fixture out_dir
        (parse_plan (w.read_task task_file))
        (load_ledger w.ledger_records).0
        "run2"
  pub flipped : Option String
  pub refused_in_run2 : contains (guarded_subjects sound_run2.stream) flipped ≡ true
  pub not_in_run1 : contains (guarded_subjects sound_run1.stream) flipped ≡ false

-- A run without findings, by an equal plan and an equal ledger.
sound_run :
    (w : World) (fixture out_dir : String) (plan plan' : List Step) (ledger ledger' : Ledger)
    → plan ≡ plan'
    → ledger ≡ ledger'
    → (run : String) (r : RunResult) → check_run w fixture out_dir plan ledger run ≡ ok r
    → r.violations ≡ []
    → (s : IsSoundRun w fixture out_dir plan' ledger' run) × (r ≡ quiet_result s.stream)
sound_run w fixture out_dir plan plan' ledger ledger' same same' run r h quiet =
    let h' : check_run w fixture out_dir plan' ledger' run ≡ ok r =
      ap (λ (l : Ledger). check_run w fixture out_dir plan' l run) (sym same')
      ∙ (ap (λ (p : List Step). check_run w fixture out_dir p ledger run) (sym same) ∙ h) in
    let s = run-IsSoundRun w fixture out_dir plan' ledger' run r h' quiet in
    (s, ok_inj (sym h' ∙ run-accepts w fixture out_dir plan' ledger' run s))

-- A conformant verdict means: the fixture is a directory with one rendered task whose plan has steps,
-- the ledger is there and has no label twice, both runs are sound by that plan and that ledger, some
-- admission refused in run 2 was not refused in run 1, and the script exits with 0.
conformance-IsConformant :
    (w : World) (fixture out_dir : String) (v : Verdict)
    → conformance w fixture out_dir ≡ ok v
    → v.conformant ≡ true
    → (v.exit ≡ 0) × IsConformant w fixture out_dir
unfolding conformance load_plan
conformance-IsConformant w fixture out_dir v h c =
    let (run1, p, h₁) = >>=-eq-ok (check_run w fixture out_dir plan.1 ledger.1 "run1") _ h in
    let (run2, q, h₂) = >>=-eq-ok (check_run w fixture out_dir plan.1 ledger.1 "run2") _ h₁ in
    let e = ok_inj h₂ in
    let none_found = (is_empty_iff _).0 (ap (λ (x : Verdict). x.conformant) e ∙ c) in
    let (dir, r₁) = (append-eq-nil _ _).0 none_found in
    let (no_plan, r₂) = (append-eq-nil plan.0 _).0 r₁ in
    let (no_ledger_, r₃) = (append-eq-nil ledger.0 _).0 r₂ in
    let (quiet1, r₄) = (append-eq-nil run1.violations _).0 r₃ in
    let (quiet2, flip) = (append-eq-nil run2.violations _).0 r₄ in
    let (file, one, steps, same_plan) = plan_quiet w (task_pattern fixture) w.task_files no_plan in
    let (there, fresh, same_ledger) = ledger_quiet w (ledger_path out_dir) no_ledger_ in
    let (s1, same1) =
      sound_run w fixture out_dir plan.1 _ ledger.1 _ same_plan same_ledger "run1" run1 p quiet1 in
    let (s2, same2) =
      sound_run w fixture out_dir plan.1 _ ledger.1 _ same_plan same_ledger "run2" run2 q quiet2 in
    let (s, m, n) = flipped_step run1 run2 s1.stream s2.stream same1 same2 flip in
    (
      sym (ap (λ (x : Verdict). x.exit) e) ∙ exit_of _ (ap (λ (x : Verdict). x.conformant) e ∙ c),
      record {
        has_fixture = fixture_quiet (w.is_dir fixture) dir;
        task_file = file;
        one_task = one;
        planned = steps;
        has_ledger = there;
        no_label_twice = fresh;
        sound_run1 = s1;
        sound_run2 = s2;
        flipped = s;
        refused_in_run2 = m;
        not_in_run1 = n;
      },
    )
  where
    plan : List Violation × List Step
    plan = load_plan w (task_pattern fixture)

    ledger : List Violation × Ledger
    ledger = load_steps w (ledger_path out_dir)

    fixture_quiet :
        (b : Bool) → (if b then [] else fixture_not_directory fixture ∷ []) ≡ [] → b ≡ true
    fixture_quiet b h = ground (arith, h)

    exit_of : (b : Bool) → b ≡ true → ◌≡◌ {A = ℕ} (if b then 0 else 1) 0
    exit_of b t = rw t refl

-- The verdict on two runs that are accepted.
abbrev accepted : List Step → List Event → List Event → Verdict
accepted plan st1 st2 = record {
  violations = [];
  plan_steps = length plan;
  run1 = some (summary_of st1);
  run2 = some (summary_of st2);
  guard_flip = guard_flip_of (some (summary_of st1)) (some (summary_of st2));
  conformant = true;
  exit = 0;
}

conformance-accepts :
    (w : World) (fixture out_dir : String) (c : IsConformant w fixture out_dir)
    → conformance w fixture out_dir
      ≡ ok (accepted (parse_plan (w.read_task c.task_file)) c.sound_run1.stream c.sound_run2.stream)
unfolding conformance
conformance-accepts w fixture out_dir c =
    rw
      (
        plan_loaded w _ c.task_file c.one_task c.planned,
        steps_loaded w (ledger_path out_dir) c.has_ledger c.no_label_twice,
        run-accepts w fixture out_dir _ _ "run1" c.sound_run1,
        run-accepts w fixture out_dir _ _ "run2" c.sound_run2,
        c.has_fixture,
        (flip_iff c.sound_run1.stream c.sound_run2.stream).1
            (c.flipped, c.refused_in_run2, c.not_in_run1),
      )
      refl

exit-conformant :
    (w : World) (fixture out_dir : String) (v : Verdict)
    → conformance w fixture out_dir ≡ ok v
    → v.exit ≡ 0
    → v.conformant ≡ true
unfolding conformance
exit-conformant w fixture out_dir v h z =
    let (run1, p, h₁) = >>=-eq-ok (check_run w fixture out_dir _ _ "run1") _ h in
    let (run2, q, h₂) = >>=-eq-ok (check_run w fixture out_dir _ _ "run2") _ h₁ in
    let e = ok_inj h₂ in
    sym (ap (λ (x : Verdict). x.conformant) e) ∙ found _ (ap (λ (x : Verdict). x.exit) e ∙ z)
  where
    found : (b : Bool) → ◌≡◌ {A = ℕ} (if b then 0 else 1) 0 → b ≡ true
    found b h = ground (arith, h)

-- The script prints a verdict and exits with 0 exactly if the fixture is a directory with one rendered
-- task whose plan has steps, the ledger is there and has no label twice, each run has its directory,
-- with documents that are sound by that ledger, whose events make a stream that is lawful by that plan,
-- and some admission that is refused in run 2 is not refused in run 1.
pub conformance_iff :
    (w : World) (fixture out_dir : String)
    → ((v : Verdict) × (conformance w fixture out_dir ≡ ok v) × (v.exit ≡ 0))
      ↔ IsConformant w fixture out_dir
conformance_iff w fixture out_dir = (
  λ (v, h, z).
      (conformance-IsConformant w fixture out_dir v h (exit-conformant w fixture out_dir v h z)).1,
  λ c. (
    accepted (parse_plan (w.read_task c.task_file)) c.sound_run1.stream c.sound_run2.stream,
    conformance-accepts w fixture out_dir c,
    refl,
  ),
)
