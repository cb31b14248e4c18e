-- ===== src/Drift/Parts.antt =====
-- The two directions of the report, loop by loop.
use mathlib.Core.Path.{subst}
use ggen_igniter.Base.{
  String, List, [], ◌∷◌, true, ◌≡◌, ◌↔◌, append-eq-nil, flat_map, contains, string_eq, pair_eq, All,
  All-imp,
}
use ggen_igniter.Base.Dict.{values_of, get_list-group}
use ggen_igniter.Base.Dict.Items.{NodupKeys}
use ggen_igniter.Base.Sort.{All-sort}
use ggen_igniter.Drift.{Ontology, Step, Invocations, by_module}
use ggen_igniter.Drift.Backward.{
  known_flags, known_extensions, check_values_traced, check_csv_traced, check_actions_traced,
  check_invocation, enum_facts, check_tasks,
}
use ggen_igniter.Drift.Forward.{
  check_domains, check_resources, check_flags, check_extensions, check_supports,
}
use ggen_igniter.Drift.Repeatable.{check_enum, actions_by_resource, check_actions}
use ggen_igniter.Drift.Flags.{by_module-NodupKeys}
use ggen_igniter.Drift.Main.{forward, backward, sorted_items}
use ggen_igniter.Drift.Quiet.{quiet_iff, unless_iff}
use ggen_igniter.Drift.Csv.{
  csv_fields, IsTraced, traced_iff, check_csv_traced_iff, check_actions_traced_iff,
}
use ggen_igniter.Drift.Lists.{IsStated, check_enum_traced_iff, action_pairs}

-- What holds of all items by two statements.
All-zip {ℓ κ μ} :
    {A : Type ℓ} (P : A → Type κ) (Q : A → Type μ) (xs : List A)
    → All P xs
    → All Q xs
    → All (λ a. P a × Q a) xs
All-zip P Q [] h k = tt
All-zip P Q (x ∷ xs) h k = ((h.0, k.0), All-zip P Q xs h.1 k.1)

-- The parts of the body of the loop over the invocations.
unfoldable pub IsQuiet : Ontology → String × List String → Type 0
IsQuiet onto p =
    (contains onto.resources p.0 ≡ true)
    × (check_values_traced "--attribute" (known_flags onto.attributes) p ≡ [])
    × (check_values_traced "--relationship" (known_flags onto.relationships) p ≡ [])
    × (check_csv_traced "--extend" (known_extensions onto.extensions) p ≡ [])
    × (check_actions_traced (actions_by_resource onto.default_actions) p ≡ [])

invocation_iff :
    (onto : Ontology) (p : String × List String) → (check_invocation onto p ≡ []) ↔ IsQuiet onto p
unfolding check_invocation IsQuiet
invocation_iff onto (resource, argv) = (
  λ h.
      let (d, r₁) = (append-eq-nil _ _).0 h in
      let (a, r₂) = (append-eq-nil _ _).0 r₁ in
      let (l, r₃) = (append-eq-nil _ _).0 r₂ in
      let (x, y) = (append-eq-nil _ _).0 r₃ in ((unless_iff _ _).0 d, a, l, x, y),
  λ (d, a, l, x, y). (append-eq-nil _ _).1 (
    (unless_iff _ _).1 d,
    (append-eq-nil _ _).1 (a, (append-eq-nil _ _).1 (l, (append-eq-nil _ _).1 (x, y))),
  ),
)

module _ (onto : Ontology) (steps : List Step) where
  abbrev pub by_resource : Invocations
  by_resource = by_module "ash.gen.resource" steps

  abbrev pub by_enum_step : Invocations
  by_enum_step = by_module "ash.gen.enum" steps

  pub unique : NodupKeys by_resource
  unique = by_module-NodupKeys "ash.gen.resource" steps

  pub forward_iff : (forward onto steps ≡ []) ↔ (
      (check_domains steps onto.domains ≡ [])
      × (check_resources by_resource onto.resources ≡ [])
      × (check_flags by_resource "--attribute" onto.attributes ≡ [])
      × (check_flags by_resource "--relationship" onto.relationships ≡ [])
      × (check_extensions by_resource onto.extensions ≡ [])
      × (check_supports steps onto.capabilities onto.supports ≡ [])
      × (flat_map (check_enum by_enum_step) onto.supports ≡ [])
      × (flat_map
            (check_actions by_resource)
            (sorted_items (actions_by_resource onto.default_actions))
          ≡ []))
  unfolding forward
  forward_iff = (
    λ h.
        let (d, h₁) = (append-eq-nil _ _).0 h in
        let (r, h₂) = (append-eq-nil _ _).0 h₁ in
        let (a, h₃) = (append-eq-nil _ _).0 h₂ in
        let (l, h₄) = (append-eq-nil _ _).0 h₃ in
        let (x, h₅) = (append-eq-nil _ _).0 h₄ in
        let (s, h₆) = (append-eq-nil _ _).0 h₅ in
        let (e, y) = (append-eq-nil _ _).0 h₆ in (d, r, a, l, x, s, e, y),
    λ (d, r, a, l, x, s, e, y). (append-eq-nil _ _).1 (
      d,
      (append-eq-nil _ _).1 (
        r,
        (append-eq-nil _ _).1 (
          a,
          (append-eq-nil _ _).1 (
            l,
            (append-eq-nil _ _).1 (x, (append-eq-nil _ _).1 (s, (append-eq-nil _ _).1 (e, y))),
          ),
        ),
      ),
    ),
  )

  pub backward_iff : (backward onto steps ≡ []) ↔ (
      All (IsQuiet onto) by_resource
      × All (λ p. IsStated (enum_facts onto.supports) p.0 p.1) by_enum_step
      × (check_tasks steps onto.capabilities ≡ []))
  unfolding backward sorted_items
  backward_iff =
      let (q₀, q₁) = quiet_iff _ (IsQuiet onto) (invocation_iff onto) by_resource in
      let (e₀, e₁) =
        quiet_iff _ (λ p. IsStated (enum_facts onto.supports) p.0 p.1)
          (check_enum_traced_iff (enum_facts onto.supports)) (sorted_items by_enum_step) in
      let (s₀, s₁) = All-sort (λ p. IsStated (enum_facts onto.supports) p.0 p.1) _ by_enum_step in
      (
        λ h.
            let (q, h₁) = (append-eq-nil _ _).0 h in
            let (e, t) = (append-eq-nil _ _).0 h₁ in (q₀ q, s₀ (e₀ e), t),
        λ (q, e, t). (append-eq-nil _ _).1 (q₁ q, (append-eq-nil _ _).1 (e₁ (s₁ e), t)),
      )

  -- The invocations, part by part.
  abbrev pub Extended : String → String → Type 0
  Extended r v = contains (known_extensions onto.extensions) (r, v) ≡ true

  abbrev pub Given : String → String → Type 0
  Given r v = contains (values_of r (action_pairs onto.default_actions)) v ≡ true

  abbrev pub Attributes : String × List String → Type 0
  Attributes p = check_values_traced "--attribute" (known_flags onto.attributes) p ≡ []

  abbrev pub Relationships : String × List String → Type 0
  Relationships p = check_values_traced "--relationship" (known_flags onto.relationships) p ≡ []

  actions_iff :
      (p : String × List String)
      → (check_actions_traced (actions_by_resource onto.default_actions) p ≡ [])
        ↔ All (Given p.0) (csv_fields "--default-actions" p.1)
  unfolding actions_by_resource
  actions_iff p =
      subst
        (λ l.
          (check_actions_traced (actions_by_resource onto.default_actions) p ≡ [])
          ↔ All (λ v. contains l v ≡ true) (csv_fields "--default-actions" p.1))
        (get_list-group p.0 (action_pairs onto.default_actions))
        (check_actions_traced_iff (actions_by_resource onto.default_actions) p)

  pub invocations_iff : All (IsQuiet onto) by_resource ↔ (
      All (λ p. contains onto.resources p.0 ≡ true) by_resource
      × All Attributes by_resource
      × All Relationships by_resource
      × IsTraced "--extend" by_resource Extended
      × IsTraced "--default-actions" by_resource Given)
  unfolding IsQuiet
  invocations_iff =
      let (x₀, x₁) = traced_iff "--extend" Extended by_resource unique in
      let (y₀, y₁) = traced_iff "--default-actions" Given by_resource unique in
      (
        λ h. (
          All-imp (λ p q. q.0) by_resource h,
          All-imp (λ p q. q.1) by_resource h,
          All-imp (λ p q. q.2) by_resource h,
          x₀ (All-imp (λ p q. (check_csv_traced_iff "--extend" _ p).0 q.3) by_resource h),
          y₀ (All-imp (λ p q. (actions_iff p).0 q.4) by_resource h),
        ),
        λ (d, a, l, x, y).
            All-imp
              (λ p (d, (a, (l, (x, y)))).
                (d, a, l, (check_csv_traced_iff "--extend" _ p).1 x, (actions_iff p).1 y))
              by_resource
              (All-zip _ _ by_resource d (
                All-zip _ _ by_resource a
                  (All-zip _ _ by_resource l (All-zip _ _ by_resource (x₁ x) (y₁ y))))),
      )
