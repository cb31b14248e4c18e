-- ===== src/Drift/Main.antt =====
-- The report of `main`: the list of findings, in the order of the script.
pub mod Laws
use ggen_igniter.Base.{
  ℕ, String, List, [], ◌∷◌, ◌++◌, Bool, flat_map, is_empty, map, length, if◌then◌else◌,
}
use ggen_igniter.Base.Sort.{sort, str_le}
use ggen_igniter.Drift.{Ontology, Step, by_module, Finding, parse_failure, no_steps}
use ggen_igniter.Drift.Forward.{
  check_domains, check_resources, check_flags, check_extensions, check_supports,
}
use ggen_igniter.Drift.Repeatable.{check_enum, actions_by_resource, check_actions}
use ggen_igniter.Drift.Backward.{check_invocation, enum_facts, check_enum_traced, check_tasks}

-- `sorted(d.items())`, by the keys, which differ.
unfoldable pub sorted_items : List (String × List String) → List (String × List String)
unfolding sort
sorted_items = sort (λ p q. str_le p.0 q.0)

unfoldable pub forward : Ontology → List Step → List Finding
unfolding check_domains check_resources check_flags check_extensions check_supports check_enum
    check_actions actions_by_resource sorted_items flat_map by_module
forward onto steps =
    let by_resource = by_module "ash.gen.resource" steps in
    check_domains steps onto.domains
    ++ (check_resources by_resource onto.resources
        ++ (check_flags by_resource "--attribute" onto.attributes
            ++ (check_flags by_resource "--relationship" onto.relationships
                ++ (check_extensions by_resource onto.extensions
                    ++ (check_supports steps onto.capabilities onto.supports
                        ++ (flat_map (check_enum (by_module "ash.gen.enum" steps)) onto.supports
                            ++ flat_map (check_actions by_resource)
                                (sorted_items (actions_by_resource onto.default_actions))))))))

unfoldable pub backward : Ontology → List Step → List Finding
unfolding check_invocation enum_facts check_enum_traced check_tasks sorted_items flat_map by_module
backward onto steps =
    flat_map (check_invocation onto) (by_module "ash.gen.resource" steps)
    ++ (flat_map (check_enum_traced (enum_facts onto.supports))
          (sorted_items (by_module "ash.gen.enum" steps))
        ++ check_tasks steps onto.capabilities)

unfoldable pub drift : Ontology → List Step → List Finding
unfolding forward backward
drift onto steps =
    map parse_failure onto.parse_failures
    ++ ((if is_empty steps then no_steps ∷ [] else [])
        ++ (forward onto steps ++ backward onto steps))

-- `return 0 if not drift else 1`
unfoldable pub exit_code : Ontology → List Step → ℕ
unfolding drift
exit_code onto steps = if is_empty (drift onto steps) then 0 else 1
