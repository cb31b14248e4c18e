-- ===== src/Drift/Tasks.antt =====
-- The composed tasks.
use ggen_igniter.Base.{
  String, Option, none, some, List, [], Bool, true, false, ◌≡◌, refl, ◌↔◌, arith, flat_map-eq-nil,
  map, contains, All-at, All-of, string_eq,
}
use ggen_igniter.Base.Dict.{Dict, lookup}
use ggen_igniter.Base.Sort.{sort, to_set, str_le, All-sort-to_set}
use ggen_igniter.Drift.{Step}
use ggen_igniter.Drift.Backward.{task_finding, check_tasks}

finding_iff :
    (task : String) (found : Option Bool) → (task_finding task found ≡ []) ↔ (found ≡ some true)
unfolding task_finding
finding_iff task none = (λ h. (cc), λ h. (cc))
finding_iff task (some true) = (λ h. refl, λ h. refl)
finding_iff task (some false) = (λ h. (cc), λ h. absurd (ground (arith, h)))

-- No composed task is reported exactly if the ontology declares and admits the task of every step.
pub check_tasks_iff :
    (steps : List Step) (capabilities : Dict String Bool)
    → (check_tasks steps capabilities ≡ []) ↔ (
        (task : String)
        → contains (map (λ (s : Step). s.task) steps) task ≡ true
        → lookup task capabilities ≡ some true)
unfolding check_tasks
check_tasks_iff steps capabilities = (
  λ h task m. (finding_iff task (lookup task capabilities)).0 (
      All-at Quiet tasks
        ((All-sort-to_set Quiet str_le tasks).0 (
          (flat_map-eq-nil (λ t. task_finding t (lookup t capabilities))
              (sort str_le (to_set tasks))).0
            h))
        task m),
  λ h.
      (flat_map-eq-nil (λ t. task_finding t (lookup t capabilities)) (sort str_le (to_set tasks))).1
        ((All-sort-to_set Quiet str_le tasks).1
          (All-of Quiet tasks (λ t m. (finding_iff t (lookup t capabilities)).1 (h t m)))),
)
  where
    tasks : List String
    tasks = map (λ (s : Step). s.task) steps

    Quiet : String → Type 0
    Quiet t = task_finding t (lookup t capabilities) ≡ []
