-- ===== src/Drift/Main/Laws.antt =====
-- What a report without findings says of the ontology and the plan.
use Prim.Native.String.{◌++◌ as ◌<>◌}
use ggen_igniter.Base.{
  String, some, List, [], true, false, ◌≡◌, ◌↔◌, arith, flat_map-eq-nil, append-eq-nil, map-eq-nil,
  is_empty, is_empty_iff, map, contains, string_eq, All, All-imp, All-at, All-map,
}
use ggen_igniter.Base.Dict.{lookup, keys}
use ggen_igniter.Base.Dict.Items.{NodupKeys}
use ggen_igniter.Drift.{Ontology, Step, Support, Invocations, by_module, parse_failure}
use ggen_igniter.Drift.Forward.{is_invoked, is_admitted}
use ggen_igniter.Drift.Backward.{known_flags, check_values_traced, check_invocation}
use ggen_igniter.Drift.Flags.{Agrees, flags_agree, by_module-NodupKeys}
use ggen_igniter.Drift.Tasks.{check_tasks_iff}
use ggen_igniter.Drift.Quiet.{
  unless_iff, when_iff, check_domains_iff, check_resources_iff, check_supports_iff,
}
use ggen_igniter.Drift.Main.{forward, backward, drift, exit_code}

-- The plan composes what the ontology states, and no resource, flag or task that it does not state.
pub record IsFaithful (onto : Ontology) (steps : List Step) : Type 0 where
  pub parsed : onto.parse_failures ≡ []
  pub composed : is_empty steps ≡ false
  pub domains : All (λ d. is_invoked steps "ash.gen.domain" d ≡ true) onto.domains
  pub resources :
      (r : String)
      → (contains onto.resources r ≡ true)
        ↔ (contains (keys (by_module "ash.gen.resource" steps)) r ≡ true)
  pub attributes : Agrees "--attribute" onto.attributes (by_module "ash.gen.resource" steps)
  pub relationships :
      Agrees "--relationship" onto.relationships (by_module "ash.gen.resource" steps)
  pub supports :
      All
        (λ (s : Support).
          is_invoked steps ("ash.gen." <> s.kind) s.module_name
          ≡ is_admitted (lookup ("ash.gen." <> s.kind) onto.capabilities))
        onto.supports
  pub tasks :
      (task : String)
      → contains (map (λ (s : Step). s.task) steps) task ≡ true
      → lookup task onto.capabilities ≡ some true

-- The parts of the loop over the invocations.
invocation_quiet :
    (onto : Ontology) (p : String × List String)
    → check_invocation onto p ≡ []
    → (contains onto.resources p.0 ≡ true)
      × (check_values_traced "--attribute" (known_flags onto.attributes) p ≡ [])
      × (check_values_traced "--relationship" (known_flags onto.relationships) p ≡ [])
unfolding check_invocation
invocation_quiet onto (resource, argv) h =
    let (declared, r₁) = (append-eq-nil _ _).0 h in
    let (attributes, r₂) = (append-eq-nil _ _).0 r₁ in
    let (relationships, r₃) = (append-eq-nil _ _).0 r₂ in
    ((unless_iff _ _).0 declared, attributes, relationships)

-- What holds of every key's item holds of the keys.
All-keys :
    (P : String → Type 0) (d : Invocations)
    → All (λ p. P p.0) d
    → (k : String) → contains (keys d) k ≡ true
    → P k
unfolding keys
All-keys P d h = All-at P (keys d) (All-map P (λ (p : String × List String). p.0) d h)

-- A report without findings means that the ontology was parsed, that the plan has a step, that each
-- domain is composed, that the resources and their attributes and relationships are those of the
-- ontology, where of several invocations for one resource the last one counts, that a support module
-- is composed exactly if its kind is admitted, and that each composed task is admitted.
pub drift-IsFaithful :
    (onto : Ontology) (steps : List Step) → drift onto steps ≡ [] → IsFaithful onto steps
unfolding drift forward backward
drift-IsFaithful onto steps h =
    let (failed, r₁) = (append-eq-nil _ _).0 h in
    let (some_step, r₂) = (append-eq-nil _ _).0 r₁ in
    let (f, b) = (append-eq-nil _ _).0 r₂ in
    let (domains, f₁) = (append-eq-nil _ _).0 f in
    let (resources, f₂) = (append-eq-nil _ _).0 f₁ in
    let (attributes, f₃) = (append-eq-nil _ _).0 f₂ in
    let (relationships, f₄) = (append-eq-nil _ _).0 f₃ in
    let (extensions, f₅) = (append-eq-nil _ _).0 f₄ in
    let (supports, f₆) = (append-eq-nil _ _).0 f₅ in
    let (invocations, b₁) = (append-eq-nil _ _).0 b in
    let (enums, tasks) = (append-eq-nil _ _).0 b₁ in
    let traced =
      All-imp (invocation_quiet onto) by_resource ((flat_map-eq-nil _ by_resource).0 invocations) in
    record {
      parsed = map-eq-nil parse_failure onto.parse_failures failed;
      composed = (when_iff _ _).0 some_step;
      domains = (check_domains_iff steps onto.domains).0 domains;
      resources = λ r. (
        All-at (λ r. contains (keys by_resource) r ≡ true) onto.resources
            ((check_resources_iff by_resource onto.resources).0 resources) r,
        declared traced r,
      );
      attributes =
          (flags_agree "--attribute" onto.attributes by_resource unique).0
            (attributes, All-imp (λ p q. q.1) by_resource traced);
      relationships =
          (flags_agree "--relationship" onto.relationships by_resource unique).0
            (relationships, All-imp (λ p q. q.2) by_resource traced);
      supports = (check_supports_iff steps onto.capabilities onto.supports).0 supports;
      tasks = (check_tasks_iff steps onto.capabilities).0 tasks;
    }
  where
    by_resource : Invocations
    by_resource = by_module "ash.gen.resource" steps

    unique : NodupKeys by_resource
    unique = by_module-NodupKeys "ash.gen.resource" steps

    declared :
        All
          (λ p.
            (contains onto.resources p.0 ≡ true)
            × (check_values_traced "--attribute" (known_flags onto.attributes) p ≡ [])
            × (check_values_traced "--relationship" (known_flags onto.relationships) p ≡ []))
          by_resource
        → (r : String) → contains (keys by_resource) r ≡ true
        → contains onto.resources r ≡ true
    declared t =
        All-keys (λ r. contains onto.resources r ≡ true) by_resource
          (All-imp (λ p q. q.0) by_resource t)

-- The script exits with 0 exactly if it has no finding.
pub exit_code-drift :
    (onto : Ontology) (steps : List Step) → (exit_code onto steps ≡ 0) ↔ (drift onto steps ≡ [])
unfolding exit_code
exit_code-drift onto steps =
    (λ h. (is_empty_iff (drift onto steps)).0 (ground (arith, h)), λ h. rw h)
