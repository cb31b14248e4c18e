-- ===== src/Drift/Backward.antt =====
-- Direction 2 of `main`: every invocation must trace back to a fact.
use ggen_igniter.Base.{
  String, Option, none, some, List, [], ◌∷◌, ◌++◌, Bool, true, false, filter, flat_map, map,
  if◌then◌else◌, ◌==◌, contains, string_eq, pair_eq,
}
use ggen_igniter.Base.Dict.{Dict, lookup, get_list, from_pairs, insert_all}
use ggen_igniter.Base.Sort.{sort, to_set, str_le}
use ggen_igniter.Base.Text.{split}
use ggen_igniter.Drift.{
  Fact, Extension, Support, Step, Ontology, Finding, undeclared_resource, flag_invented,
  enum_csv_missing, enum_value_invented, task_undeclared, task_not_admitted,
}
use ggen_igniter.Drift.Argv.{values_after, enum_values_in_argv}
use ggen_igniter.Drift.Repeatable.{actions_by_resource}

abbrev pub known_flags : List Fact → List (String × String)
known_flags facts = map (λ (f : Fact). (f.resource, f.flag)) facts

abbrev pub known_extensions : List Extension → List (String × String)
known_extensions extensions = map (λ (x : Extension). (x.resource, x.name)) extensions

-- A value that an option of a resource passes, with no fact behind it.
unfoldable pub trace : String → List (String × String) → String → String → List Finding
unfolding contains
trace option known resource v =
    if contains known (resource, v) then [] else flag_invented option v resource ∷ []

-- The values of an option, and those of an option that takes a csv.
unfoldable pub check_values_traced :
    String → List (String × String) → String × List String → List Finding
unfolding trace flat_map values_after
check_values_traced option known (resource, argv) =
    flat_map (trace option known resource) (values_after option argv)

unfoldable pub check_csv_traced :
    String → List (String × String) → String × List String → List Finding
unfolding trace flat_map values_after split
check_csv_traced option known (resource, argv) =
    flat_map (λ g. flat_map (trace option known resource) (split b',' g)) (values_after option argv)

-- The default actions are looked up by resource: `v not in onto_actions.get(resource, [])`.
unfoldable pub check_actions_traced :
    Dict String (List String) → String × List String → List Finding
unfolding flat_map values_after split contains lookup
check_actions_traced onto_actions (resource, argv) =
    flat_map
      (λ g.
        flat_map
          (λ v.
            if contains (get_list resource onto_actions) v
            then []
            else flag_invented "--default-actions" v resource ∷ [])
          (split b',' g))
      (values_after "--default-actions" argv)

-- The body of the loop over `by_resource`.
unfoldable pub check_invocation : Ontology → String × List String → List Finding
unfolding check_values_traced check_csv_traced check_actions_traced actions_by_resource contains
check_invocation onto (resource, argv) =
    (if contains onto.resources resource then [] else undeclared_resource resource ∷ [])
    ++ (check_values_traced "--attribute" (known_flags onto.attributes) (resource, argv)
        ++ (check_values_traced "--relationship" (known_flags onto.relationships) (resource, argv)
            ++ (check_csv_traced "--extend" (known_extensions onto.extensions) (resource, argv)
                ++ check_actions_traced (actions_by_resource onto.default_actions)
                    (resource, argv))))

-- `{s["module"]: s["enum_values"] for s in onto["supports"] if s["kind"] == "enum"}`
unfoldable pub enum_facts : List Support → Dict String (List String)
unfolding insert_all filter
enum_facts supports = from_pairs (
    map (λ (s : Support). (s.module_name, s.enum_values))
      (filter (λ (s : Support). s.kind == "enum") supports))

unfoldable pub enum_traced :
    Dict String (List String) → String → Option (List String) → List Finding
unfolding flat_map contains lookup
enum_traced facts module_name none = enum_csv_missing module_name ∷ []
enum_traced facts module_name (some found) =
    flat_map
      (λ v.
        if contains (get_list module_name facts) v
        then []
        else enum_value_invented v module_name ∷ [])
      found

-- The body of the loop over `by_enum_step`.
unfoldable pub check_enum_traced : Dict String (List String) → String × List String → List Finding
unfolding enum_traced enum_values_in_argv
check_enum_traced facts (module_name, argv) =
    enum_traced facts module_name (enum_values_in_argv argv)

-- The body of the loop over the composed tasks, given the capability's standing.
unfoldable pub task_finding : String → Option Bool → List Finding
task_finding task none = task_undeclared task ∷ []
task_finding task (some true) = []
task_finding task (some false) = task_not_admitted task ∷ []

unfoldable pub check_tasks : List Step → Dict String Bool → List Finding
unfolding task_finding flat_map lookup sort to_set
check_tasks steps capabilities =
    flat_map (λ task. task_finding task (lookup task capabilities))
      (sort str_le (to_set (map (λ (s : Step). s.task) steps)))
