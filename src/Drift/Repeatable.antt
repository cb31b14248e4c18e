-- ===== src/Drift/Repeatable.antt =====
-- Direction 1 of `main` for the repeatable properties: the values and their position.
pub mod Laws
use ggen_igniter.Base.{
  String, Option, none, some, List, [], ◌∷◌, ◌++◌, Bool, true, false, ◌&&◌, not, flat_map, is_empty,
  map, if◌then◌else◌, ◌==◌, contains, string_eq, Eq,
}
use ggen_igniter.Base.Dict.{Dict, lookup, group, group_onto}
use ggen_igniter.Base.Sort.{sort, str_le}
use ggen_igniter.Base.Text.{join, split}
use ggen_igniter.Drift.{
  Support, DefaultAction, Invocations, argv_of, projected_order, Finding, values_on_other_kind,
  no_enum_values, enum_value_missing, enum_order, no_default_actions, action_missing, action_order,
}
use ggen_igniter.Drift.Argv.{values_after, enum_values_in_argv}

-- `xs == ys`, of lists of texts.
unfoldable pub same_list : List String → List String → Bool
same_list [] [] = true
same_list [] (y ∷ ys) = false
same_list (x ∷ xs) [] = false
same_list (x ∷ xs) (y ∷ ys) = x == y && same_list xs ys

-- The two reports on one csv: a value that is missing, and the wrong order of the right values.
module _ (missing : String → Finding) (disordered : List String → List String → Finding) where
  unfoldable pub check_values : List String → List String → List Finding
  unfolding flat_map contains same_list sort
  check_values found expected =
      flat_map (λ v. if contains found v then [] else missing v ∷ []) expected
      ++ (if not (same_list found expected) && same_list (sort str_le found) (sort str_le expected)
          then disordered found expected ∷ []
          else [])

unfoldable pub enum_findings : Support → Option (List String) → List Finding
unfolding check_values projected_order
enum_findings s none = []
enum_findings s (some found) =
    check_values (λ v. enum_value_missing v s.module_name) (enum_order s.module_name) found
      (projected_order s.enum_values)

unfoldable pub enum_step_findings : Support → Option (List String) → List Finding
unfolding enum_findings enum_values_in_argv
enum_step_findings s none = []
enum_step_findings s (some argv) = enum_findings s (enum_values_in_argv argv)

-- The body of the loop over the support modules.
unfoldable pub check_enum : Invocations → Support → List Finding
unfolding enum_step_findings lookup
check_enum by_enum_step s =
    if s.kind == "enum"
    then (if is_empty s.enum_values
        then no_enum_values s.module_name ∷ []
        else enum_step_findings s (lookup s.module_name by_enum_step))
    else if is_empty s.enum_values
    then []
    else values_on_other_kind s.module_name s.kind ∷ []

-- `onto_actions`
unfoldable pub actions_by_resource : List DefaultAction → Dict String (List String)
unfolding group_onto
actions_by_resource actions = group (map (λ (a : DefaultAction). (a.resource, a.value)) actions)

unfoldable pub check_actions : Invocations → String × List String → List Finding
unfolding check_values projected_order values_after lookup join split
check_actions by_resource (resource, values) =
    let groups = values_after "--default-actions" (argv_of resource by_resource) in
    if is_empty groups
    then no_default_actions resource ∷ []
    else check_values (λ v. action_missing v resource) (action_order resource)
        (split b',' (join "," groups)) (projected_order values)
