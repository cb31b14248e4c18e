-- ===== src/Conformance/Main/Loaded.antt =====
-- The plan and the ledger, as `main` reads them.
use mathlib.Core.Path.{subst}
use ggen_igniter.Base.{
  cons_ne_nil, String, List, [], ◌∷◌, true, false, ◌≡◌, refl, sym, ap, ◌∙◌, arith, inl, inr,
  is_empty, is_empty_iff, map-eq-nil, map, string_eq, option_eq, All, Bool-cases,
}
use ggen_igniter.Base.Sort.{sort, to_set, str_le, All-sort-to_set}
use ggen_igniter.Base.Text.{path_join}
use ggen_igniter.Conformance.{Ledger, load_ledger, duplicate_label, no_ledger}
use ggen_igniter.Conformance.Parse.{parse_plan}
use ggen_igniter.Conformance.Main.{World, plan_of, load_plan, load_steps}

-- `os.path.join(out_dir, "steps.jsonl")`
abbrev pub ledger_path : String → String
ledger_path out_dir = path_join out_dir "steps.jsonl"

-- The pattern of the rendered tasks' paths.
abbrev pub task_pattern : String → String
task_pattern fixture =
    path_join (path_join (path_join (path_join fixture "lib") "mix") "tasks") "*.manufacture.ex"

none_of_All {ℓ} : {A : Type ℓ} (xs : List A) → All (λ a. ⊥) xs → is_empty xs ≡ true
none_of_All [] h = refl
none_of_All (x ∷ xs) h = absurd h.0

-- A list of a set that comes out empty.
empty_set : (xs : List String) → sort str_le (to_set xs) ≡ [] → is_empty xs ≡ true
empty_set xs h =
    none_of_All xs ((All-sort-to_set (λ a. ⊥) str_le xs).0 (subst (All (λ a. ⊥)) (sym h) tt))

pub plan_quiet :
    (w : World) (task_glob : String) (files : List String)
    → (plan_of w task_glob files).0 ≡ []
    → (file : String) × (files ≡ file ∷ [])
      × (is_empty (parse_plan (w.read_task file)) ≡ false)
      × ((plan_of w task_glob files).1 ≡ parse_plan (w.read_task file))
unfolding plan_of
plan_quiet w task_glob [] h = absurd (cons_ne_nil h)
plan_quiet w task_glob (file ∷ []) h = (file, refl, ground (arith, h), refl)
plan_quiet w task_glob (file ∷ other ∷ files) h = absurd (cons_ne_nil h)

pub ledger_quiet :
    (w : World) (path : String)
    → (load_steps w path).0 ≡ []
    → (w.is_file path ≡ true)
      × (is_empty (load_ledger w.ledger_records).1 ≡ true)
      × ((load_steps w path).1 ≡ (load_ledger w.ledger_records).0)
unfolding load_steps
ledger_quiet w path h = elim (Bool-cases (w.is_file path)) [
  | inl p ↦ (
    p,
    empty_set loaded.1 (map-eq-nil (duplicate_label path) _ (sym (ap (λ r. r.0) (there p)) ∙ h)),
    ap (λ r. r.1) (there p),
  )
  | inr p ↦ absurd (cons_ne_nil (sym (ap (λ r. r.0) (missing p)) ∙ h))
]
  where
    loaded : Ledger × List String
    loaded = load_ledger w.ledger_records

    there :
        w.is_file path ≡ true
        → load_steps w path ≡ (map (duplicate_label path) (sort str_le (to_set loaded.1)), loaded.0)
    there p = rw p refl

    missing : w.is_file path ≡ false → load_steps w path ≡ (no_ledger path ∷ [], [])
    missing p = rw p refl

pub plan_loaded :
    (w : World) (task_glob file : String)
    → w.task_files ≡ file ∷ []
    → is_empty (parse_plan (w.read_task file)) ≡ false
    → load_plan w task_glob ≡ ([], parse_plan (w.read_task file))
unfolding load_plan plan_of
plan_loaded w task_glob file one steps = rw (one, steps) refl

pub steps_loaded :
    (w : World) (path : String)
    → w.is_file path ≡ true
    → is_empty (load_ledger w.ledger_records).1 ≡ true
    → load_steps w path ≡ ([], (load_ledger w.ledger_records).0)
unfolding load_steps sort to_set
steps_loaded w path there fresh = rw (there, (is_empty_iff _).0 fresh) refl
