-- ===== src/Drift/Lists.antt =====
-- The two directions on the enum values and on the default actions.
use mathlib.Core.Path.{subst}
use ggen_igniter.Base.{
  String, Option, none, some, List, [], ◌∷◌, true, false, not, ◌≡◌, refl, sym, ap, ◌∙◌, ◌↔◌, ◌≢◌,
  inl, inr, arith, flat_map, flat_map-eq-nil, cons_ne_nil, if◌then◌else◌, ◌==◌, contains,
  contains-cons, count, Bool-cases, string_eq, All, map, is_empty, some_inj,
}
use ggen_igniter.Base.Dict.{Dict, lookup, keys, get_list, values_of, values_of-ne-nil}
use ggen_igniter.Base.Dict.Groups.{All-group}
use ggen_igniter.Base.Sort.{All-sort}
use ggen_igniter.Base.Text.{split, join}
use ggen_igniter.Base.Text.Fields.{split-join}
use ggen_igniter.Drift.{
  Support, DefaultAction, Invocations, argv_of, projected_order, enum_value_missing, enum_order,
  no_default_actions, action_missing, action_order,
}
use ggen_igniter.Drift.Argv.{values_after, enum_values_in_argv}
use ggen_igniter.Drift.Repeatable.{
  check_values, enum_findings, enum_step_findings, check_enum, actions_by_resource, check_actions,
}
use ggen_igniter.Drift.Repeatable.Laws.{check_values_iff}
use ggen_igniter.Drift.Backward.{enum_traced, check_enum_traced}
use ggen_igniter.Drift.Main.{sorted_items}
use ggen_igniter.Drift.Csv.{csv_of}
use ggen_igniter.Drift.Quiet.{quiet_iff, unless_iff}

-- The csv has each of the values, and, where it has each value as often as the ontology, has them in
-- lexical order.
abbrev pub Lists : List String → List String → Type 0
Lists found values =
    ((v : String) → contains values v ≡ true → contains found v ≡ true)
    × (((v : String) → count found v ≡ count values v) → found ≡ projected_order values)

-- An enum has values, which the csv of its step lists, if it has a step with a csv. A support module
-- of another kind has no values.
abbrev pub IsListed : Invocations → Support → Type 0
IsListed enums s =
    (is_empty s.enum_values ≡ not (s.kind == "enum"))
    × ((s.kind == "enum") ≡ true
        → (argv found : List String) → lookup s.module_name enums ≡ some argv
        → enum_values_in_argv argv ≡ some found
        → Lists found s.enum_values)

enum_findings_iff :
    (s : Support) (o : Option (List String))
    → (enum_findings s o ≡ [])
      ↔ ((found : List String) → o ≡ some found → Lists found s.enum_values)
unfolding enum_findings
enum_findings_iff s none = (λ h found e. absurd (cc), λ h. refl)
enum_findings_iff s (some xs) =
    let (to, from) =
      check_values_iff (λ v. enum_value_missing v s.module_name) (enum_order s.module_name) xs
        s.enum_values in
    (λ h found e. subst (λ l. Lists l s.enum_values) (some_inj e) (to h), λ h. from (h xs refl))

enum_step_iff :
    (s : Support) (o : Option (List String))
    → (enum_step_findings s o ≡ []) ↔ (
        (argv found : List String)
        → o ≡ some argv
        → enum_values_in_argv argv ≡ some found
        → Lists found s.enum_values)
unfolding enum_step_findings
enum_step_iff s none = (λ h argv found e. absurd (cc), λ h. refl)
enum_step_iff s (some argv) = (
  λ h other found e q.
      (enum_findings_iff s (enum_values_in_argv argv)).0 h found
        (ap enum_values_in_argv (some_inj e) ∙ q),
  λ h. (enum_findings_iff s (enum_values_in_argv argv)).1 (λ found q. h argv found refl q),
)

pub check_enum_iff :
    (enums : Invocations) (s : Support) → (check_enum enums s ≡ []) ↔ IsListed enums s
unfolding check_enum
check_enum_iff enums s = elim (Bool-cases (s.kind == "enum")) [
  | inl p ↦ (
    λ h. elim (Bool-cases (is_empty s.enum_values)) [
      | inl q ↦ absurd (ground (arith, p, q, h))
      | inr q ↦ (ground (arith, p, q), λ k. (enum_step_iff s step).0 (rw (p, q) at h))
    ],
    λ h.
        let q : is_empty s.enum_values ≡ false = ground (arith, p, h.0) in
        rw (p, q) ((enum_step_iff s step).1 (h.1 p)),
  )
  | inr p ↦ (
    λ h. elim (Bool-cases (is_empty s.enum_values)) [
      | inl q ↦ (ground (arith, p, q), λ k. absurd (ground (arith, p, k)))
      | inr q ↦ absurd (ground (arith, p, q, h))
    ],
    λ h. let q : is_empty s.enum_values ≡ true = ground (arith, p, h.0) in rw (p, q) refl,
  )
]
  where
    step : Option (List String)
    step = lookup s.module_name enums

-- The loop over the enum steps: the step has a csv, of values that the ontology has for the module.
abbrev pub IsStated : Dict String (List String) → String → List String → Type 0
IsStated facts m argv =
    (found : List String) × (enum_values_in_argv argv ≡ some found)
    × All (λ v. contains (get_list m facts) v ≡ true) found

enum_traced_iff :
    (facts : Dict String (List String)) (m : String) (o : Option (List String))
    → (enum_traced facts m o ≡ []) ↔ (
        (found : List String) × (o ≡ some found)
        × All (λ v. contains (get_list m facts) v ≡ true) found)
unfolding enum_traced
enum_traced_iff facts m none = (λ h. absurd (cc), λ h. absurd (let e = h.1 in cc))
enum_traced_iff facts m (some xs) =
    let (to, from) =
      quiet_iff _ (λ v. contains (get_list m facts) v ≡ true) (λ v. unless_iff _ _) xs in
    (
      λ h. (xs, refl, to h),
      λ (found, e, h).
          from (subst (All (λ v. contains (get_list m facts) v ≡ true)) (sym (some_inj e)) h),
    )

pub check_enum_traced_iff :
    (facts : Dict String (List String)) (p : String × List String)
    → (check_enum_traced facts p ≡ []) ↔ IsStated facts p.0 p.1
unfolding check_enum_traced
check_enum_traced_iff facts (m, argv) = enum_traced_iff facts m (enum_values_in_argv argv)

-- The default actions, by resource.
abbrev pub action_pairs : List DefaultAction → List (String × String)
action_pairs actions = map (λ (a : DefaultAction). (a.resource, a.value)) actions

-- Given at least one value, the body of the loop over the default actions.
groups_iff :
    (resource : String) (values groups : List String)
    → values ≢ []
    → ((if is_empty groups
          then no_default_actions resource ∷ []
          else check_values
              (λ v. action_missing v resource)
              (action_order resource)
              (split b',' (join "," groups))
              (projected_order values))
        ≡ [])
      ↔ Lists (flat_map (split b',') groups) values
groups_iff resource [] [] n = absurd (n refl)
groups_iff resource (v ∷ values) [] n = (
  λ h. absurd (cons_ne_nil h),
  λ h. absurd (none_in (h.0 v ((contains-cons v values v).1 (inl refl)))),
)
  where
    none_in : contains (flat_map (split b',') []) v ≡ true → ⊥
    none_in m = unfold contains flat_map in cc
groups_iff resource values (w ∷ ws) n = rw (split-join w ws) (
    check_values_iff (λ v. action_missing v resource) (action_order resource)
      (flat_map (split b',') (w ∷ ws)) values)

module _ (invocations : Invocations) (actions : List DefaultAction) where
  action_iff :
      (resource : String) (values : List String)
      → values ≢ []
      → (check_actions invocations (resource, values) ≡ [])
        ↔ Lists (csv_of "--default-actions" resource invocations) values
  unfolding check_actions
  action_iff resource values n =
      groups_iff resource values (values_after "--default-actions" (argv_of resource invocations)) n

  -- The loop over the default actions reports nothing exactly if each resource that has any passes
  -- them.
  pub check_all_actions_iff :
      (flat_map (check_actions invocations) (sorted_items (actions_by_resource actions)) ≡ []) ↔ (
        (resource : String)
        → contains (keys (action_pairs actions)) resource ≡ true
        → Lists
            (csv_of "--default-actions" resource invocations)
            (values_of resource (action_pairs actions)))
  unfolding sorted_items actions_by_resource
  check_all_actions_iff = (
    λ h resource m. (action_iff resource _ (values_of-ne-nil resource (action_pairs actions) m)).0 (
        (All-group Quiet (action_pairs actions)).0
          ((All-sort Quiet _ _).0 ((flat_map-eq-nil _ _).0 h)) resource m),
    λ h. (flat_map-eq-nil _ _).1 (
        (All-sort Quiet _ _).1 (
          (All-group Quiet (action_pairs actions)).1 (λ resource m.
            (action_iff resource _ (values_of-ne-nil resource (action_pairs actions) m)).1
              (h resource m)))),
  )
    where
      Quiet : String × List String → Type 0
      Quiet p = check_actions invocations p ≡ []
