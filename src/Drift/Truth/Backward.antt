-- ===== src/Drift/Truth/Backward.antt =====
-- The findings of direction 2 are true.
use ggen_igniter.Base.{
  String, Option, none, some, List, [], ◌∷◌, Bool, true, false, ◌≡◌, refl, sym, ap, ◌∙◌, inl, inr,
  arith, flat_map, map, ◌==◌, contains, contains-append, contains-cons, string_eq, pair_eq, eq_self,
  All, All-of, All-append, All-flat_map, Bool-cases,
}
use ggen_igniter.Base.Dict.{lookup, values_of, get_list-group}
use ggen_igniter.Base.Dict.Items.{All-items}
use ggen_igniter.Base.Sort.{All-sort, All-sort-to_set}
use ggen_igniter.Base.Text.{split}
use ggen_igniter.Drift.{Ontology, Step, Finding, flag_invented}
use ggen_igniter.Drift.Argv.{values_after, enum_values_in_argv}
use ggen_igniter.Drift.Repeatable.{actions_by_resource}
use ggen_igniter.Drift.Backward.{
  known_flags, known_extensions, trace, check_values_traced, check_csv_traced, check_actions_traced,
  check_invocation, enum_facts, enum_traced, check_enum_traced, task_finding, check_tasks,
}
use ggen_igniter.Drift.Csv.{csv_fields}
use ggen_igniter.Drift.Flags.{by_module-NodupKeys}
use ggen_igniter.Drift.Lists.{action_pairs}
use ggen_igniter.Drift.Main.{backward, sorted_items}
use ggen_igniter.Drift.Parts.{by_resource, by_enum_step, unique}
use ggen_igniter.Drift.Exact.{key_found}
use ggen_igniter.Drift.Truth.{IsTrue}
use ggen_igniter.Drift.Truth.Forward.{unless-All}

-- A pair gives its key its value.
contains-values_of :
    (r v : String) (ps : List (String × String))
    → contains ps (r, v) ≡ true
    → contains (values_of r ps) v ≡ true
unfolding values_of
contains-values_of r v [] m = absurd (unfold contains in cc)
contains-values_of r v ((j, w) ∷ ps) m = elim ((contains-cons (j, w) ps (r, v)).0 m) [
  | inl e ↦
      rw (ap (λ (p : String × String). p.0 == r) e ∙ eq_self r)
        ((contains-cons w (values_of r ps) v).1 (inl (ap (λ (p : String × String). p.1) e)))
  | inr n ↦ elim (Bool-cases (j == r)) [
    | inl t ↦ rw t ((contains-cons w (values_of r ps) v).1 (inr (contains-values_of r v ps n)))
    | inr t ↦ rw t (contains-values_of r v ps n)
  ]
]

no_pair :
    (r v : String) (ps : List (String × String))
    → contains (values_of r ps) v ≡ false
    → contains ps (r, v) ≡ false
no_pair r v ps h = elim (Bool-cases (contains ps (r, v))) [
  | inl m ↦ absurd (let k = contains-values_of r v ps m in cc)
  | inr m ↦ m
]

module _ (P : Finding → Type 0) where
  -- A loop over the fields of csvs, and what each of the fields reports.
  nested-All :
      (f : String → List Finding) (gs : List String)
      → ((v : String) → contains (flat_map (split b',') gs) v ≡ true → All P (f v))
      → All P (flat_map (λ g. flat_map f (split b',' g)) gs)
  unfolding flat_map
  nested-All f [] h = tt
  nested-All f (g ∷ gs) h =
      All-append P _ _
        (All-flat_map P f (split b',' g) (
          All-of _ (split b',' g) (λ v m.
            h v (contains-append (split b',' g) (flat_map (split b',') gs) v ∙ ground (arith, m)))))
        (nested-All f gs (λ v m.
          h v (contains-append (split b',' g) (flat_map (split b',') gs) v ∙ ground (arith, m))))

module _ (onto : Ontology) (steps : List Step) where
  T : Finding → Type 0
  T = IsTrue onto steps

  values-IsTrue :
      (option r : String) (known : List (String × String)) (argv : List String)
      → ((v : String)
          → contains (values_after option argv) v ≡ true
          → contains known (r, v) ≡ false
          → IsTrue onto steps (flag_invented option v r))
      → All T (check_values_traced option known (r, argv))
  unfolding check_values_traced trace T
  values-IsTrue option r known argv h =
      All-flat_map T _ (values_after option argv)
        (All-of _ (values_after option argv) (λ v m. unless-All T _ _ (h v m)))

  csv-IsTrue :
      (option r : String) (known : List (String × String)) (argv : List String)
      → ((v : String)
          → contains (csv_fields option argv) v ≡ true
          → contains known (r, v) ≡ false
          → IsTrue onto steps (flag_invented option v r))
      → All T (check_csv_traced option known (r, argv))
  unfolding check_csv_traced trace T
  csv-IsTrue option r known argv h =
      nested-All T _ (values_after option argv) (λ v m. unless-All T _ _ (h v m))

  actions-IsTrue :
      (r : String) (argv : List String)
      → ((v : String)
          → contains (csv_fields "--default-actions" argv) v ≡ true
          → contains (action_pairs onto.default_actions) (r, v) ≡ false
          → IsTrue onto steps (flag_invented "--default-actions" v r))
      → All T (check_actions_traced (actions_by_resource onto.default_actions) (r, argv))
  unfolding check_actions_traced actions_by_resource T
  actions-IsTrue r argv h = nested-All T _ (values_after "--default-actions" argv) (λ v m.
      unless-All T _ _ (λ n. h v m (
        no_pair r v (action_pairs onto.default_actions) (
          ap (λ l. contains l v) (sym (get_list-group r (action_pairs onto.default_actions)))
          ∙ n))))

  invocation-IsTrue :
      (r : String) (argv : List String)
      → lookup r (by_resource onto steps) ≡ some argv
      → All T (check_invocation onto (r, argv))
  unfolding check_invocation T
  invocation-IsTrue r argv e =
      All-append T _ _ (unless-All T _ _ (λ n. (key_found onto steps r argv e, n))) (
        All-append T _ _
          (values-IsTrue "--attribute" r (known_flags onto.attributes) argv (λ v m n. (rw e m, n)))
          (All-append T _ _
            (values-IsTrue "--relationship" r (known_flags onto.relationships) argv
              (λ v m n. (rw e m, n)))
            (All-append T _ _
              (csv-IsTrue "--extend" r (known_extensions onto.extensions) argv
                (λ v m n. (rw e m, n)))
              (actions-IsTrue r argv (λ v m n. (rw e m, n))))))

  enum-IsTrue :
      (m : String) (argv : List String) (o : Option (List String))
      → lookup m (by_enum_step onto steps) ≡ some argv
      → enum_values_in_argv argv ≡ o
      → All T (enum_traced (enum_facts onto.supports) m o)
  unfolding enum_traced T
  enum-IsTrue m argv none e q = ((argv, e, q), tt)
  enum-IsTrue m argv (some found) e q =
      All-flat_map T _ found
        (All-of _ found (λ v i. unless-All T _ _ (λ n. ((found, (argv, e, q), i), n))))

  task-IsTrue :
      (task : String) (o : Option Bool)
      → contains (map (λ (s : Step). s.task) steps) task ≡ true
      → lookup task onto.capabilities ≡ o
      → All T (task_finding task o)
  unfolding task_finding T
  task-IsTrue task none m e = ((m, e), tt)
  task-IsTrue task (some true) m e = tt
  task-IsTrue task (some false) m e = ((m, e), tt)

  -- Every finding of direction 2 is true.
  pub backward-IsTrue : All (IsTrue onto steps) (backward onto steps)
  unfolding backward check_enum_traced check_tasks sorted_items T
  backward-IsTrue =
      All-append T _ _
        (All-flat_map T _ (by_resource onto steps) (
          (All-items (λ p. All T (check_invocation onto p)) (by_resource onto steps)
              (unique onto steps)).1
            invocation-IsTrue))
        (All-append T _ _
          (All-flat_map T _ _ (
            (All-sort EnumTrue _ _).1 (
              (All-items EnumTrue (by_enum_step onto steps)
                  (by_module-NodupKeys "ash.gen.enum" steps)).1
                (λ m argv e. enum-IsTrue m argv _ e refl))))
          (All-flat_map T _ _ (
            (All-sort-to_set TaskTrue _ _).1 (
              All-of TaskTrue (map (λ (s : Step). s.task) steps) (λ t m. task-IsTrue t _ m refl)))))
    where
      EnumTrue : String × List String → Type 0
      EnumTrue p = All T (check_enum_traced (enum_facts onto.supports) p)

      TaskTrue : String → Type 0
      TaskTrue t = All T (task_finding t (lookup t onto.capabilities))
