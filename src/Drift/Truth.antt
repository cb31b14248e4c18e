-- ===== src/Drift/Truth.antt =====
-- What each finding of the report says of the ontology and of the plan.
pub mod Forward
pub mod Backward
pub mod Laws
use Prim.Native.String.{◌++◌ as ◌<>◌}
use ggen_igniter.Base.{
  String, Option, none, some, List, [], ◌∷◌, Bool, true, false, ◌&&◌, not, ◌≡◌, ◌≢◌, any, is_empty,
  map, if◌then◌else◌, ◌==◌, contains, string_eq, pair_eq, All, All-imp, All-of,
}
use ggen_igniter.Base.Dict.{lookup, keys, get_list, values_of}
use ggen_igniter.Base.Sort.{sort, str_le}
use ggen_igniter.Drift.{
  Ontology, Step, Support, argv_of, projected_order, Finding, parse_failure, no_steps,
  domain_missing, resource_missing, flag_missing, extension_missing, support_missing,
  not_admitted_projected, values_on_other_kind, no_enum_values, enum_value_missing, enum_order,
  no_default_actions, action_missing, action_order, undeclared_resource, flag_invented,
  enum_csv_missing, enum_value_invented, task_undeclared, task_not_admitted,
}
use ggen_igniter.Drift.Argv.{values_after, enum_values_in_argv}
use ggen_igniter.Drift.Forward.{is_invoked, is_admitted}
use ggen_igniter.Drift.Repeatable.{same_list}
use ggen_igniter.Drift.Backward.{known_flags, known_extensions, enum_facts}
use ggen_igniter.Drift.Csv.{csv_of}
use ggen_igniter.Drift.Lists.{action_pairs}
use ggen_igniter.Drift.Parts.{by_resource, by_enum_step}

module _ (onto : Ontology) (steps : List Step) where
  -- The facts behind an option: a resource with a value.
  abbrev pub stated : String → List (String × String)
  stated option =
      if option == "--attribute"
      then known_flags onto.attributes
      else if option == "--relationship"
      then known_flags onto.relationships
      else if option == "--extend"
      then known_extensions onto.extensions
      else action_pairs onto.default_actions

  -- The values that the invocation for a resource passes with an option. The extensions and the
  -- default actions stand in csvs.
  abbrev pub passed : String → String → List String
  passed option r =
      if option == "--attribute"
      then values_after option (argv_of r (by_resource onto steps))
      else if option == "--relationship"
      then values_after option (argv_of r (by_resource onto steps))
      else csv_of option r (by_resource onto steps)

  -- The csv of the enum step for a module.
  abbrev pub IsEnumCsv : String → List String → Type 0
  IsEnumCsv m found =
      (argv : List String) × (lookup m (by_enum_step onto steps) ≡ some argv)
      × (enum_values_in_argv argv ≡ some found)

  abbrev pub HasSupport : (Support → Bool) → Type 0
  HasSupport p = any p onto.supports ≡ true

  -- A csv in the wrong order.
  abbrev pub IsDisordered : List String → List String → Type 0
  IsDisordered found expected = (found ≢ expected) × (sort str_le found ≡ sort str_le expected)

  abbrev pub IsTrue : Finding → Type 0
  IsTrue (parse_failure m) = contains onto.parse_failures m ≡ true
  IsTrue no_steps = is_empty steps ≡ true
  IsTrue (domain_missing d) =
      (contains onto.domains d ≡ true) × (is_invoked steps "ash.gen.domain" d ≡ false)
  IsTrue (resource_missing r) =
      (contains onto.resources r ≡ true) × (contains (keys (by_resource onto steps)) r ≡ false)
  IsTrue (flag_missing option v r) =
      (contains (stated option) (r, v) ≡ true) × (contains (passed option r) v ≡ false)
  IsTrue (extension_missing v r) =
      (contains (stated "--extend") (r, v) ≡ true) × (contains (passed "--extend" r) v ≡ false)
  IsTrue (support_missing m task) =
      HasSupport (λ s. s.module_name == m && ("ash.gen." <> s.kind) == task)
      × (is_admitted (lookup task onto.capabilities) ≡ true)
      × (is_invoked steps task m ≡ false)
  IsTrue (not_admitted_projected task m) =
      HasSupport (λ s. s.module_name == m && ("ash.gen." <> s.kind) == task)
      × (is_admitted (lookup task onto.capabilities) ≡ false)
      × (is_invoked steps task m ≡ true)
  IsTrue (values_on_other_kind m kind) =
      HasSupport (λ s. s.module_name == m && (s.kind == kind && not (is_empty s.enum_values)))
      × ((kind == "enum") ≡ false)
  IsTrue (no_enum_values m) =
      HasSupport (λ s. s.module_name == m && (s.kind == "enum" && is_empty s.enum_values))
  IsTrue (enum_value_missing v m) =
      HasSupport (λ s. s.module_name == m && (s.kind == "enum" && contains s.enum_values v))
      × (found : List String) × IsEnumCsv m found
      × (contains found v ≡ false)
  IsTrue (enum_order m found expected) =
      HasSupport (λ s.
        s.module_name == m
        && (s.kind == "enum" && same_list (projected_order s.enum_values) expected))
      × IsEnumCsv m found
      × IsDisordered found expected
  IsTrue (no_default_actions r) =
      (contains (keys (action_pairs onto.default_actions)) r ≡ true)
      × (values_after "--default-actions" (argv_of r (by_resource onto steps)) ≡ [])
  IsTrue (action_missing v r) =
      (contains (values_of r (action_pairs onto.default_actions)) v ≡ true)
      × (contains (passed "--default-actions" r) v ≡ false)
  IsTrue (action_order r found expected) =
      (found ≡ passed "--default-actions" r)
      × (expected ≡ projected_order (values_of r (action_pairs onto.default_actions)))
      × IsDisordered found expected
  IsTrue (undeclared_resource r) =
      (contains (keys (by_resource onto steps)) r ≡ true) × (contains onto.resources r ≡ false)
  IsTrue (flag_invented option v r) =
      (contains (passed option r) v ≡ true) × (contains (stated option) (r, v) ≡ false)
  IsTrue (enum_csv_missing m) =
      (argv : List String) × (lookup m (by_enum_step onto steps) ≡ some argv)
      × (enum_values_in_argv argv ≡ none)
  IsTrue (enum_value_invented v m) =
      ((found : List String) × IsEnumCsv m found × (contains found v ≡ true))
      × (contains (get_list m (enum_facts onto.supports)) v ≡ false)
  IsTrue (task_undeclared task) =
      (contains (map (λ (s : Step). s.task) steps) task ≡ true)
      × (lookup task onto.capabilities ≡ none)
  IsTrue (task_not_admitted task) =
      (contains (map (λ (s : Step). s.task) steps) task ≡ true)
      × (lookup task onto.capabilities ≡ some false)
