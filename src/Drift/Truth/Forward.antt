-- ===== src/Drift/Truth/Forward.antt =====
-- The findings of direction 1 are true.
use Prim.Native.String.{◌++◌ as ◌<>◌}
use ggen_igniter.Base.{
  String, Option, none, some, List, [], ◌∷◌, Bool, true, false, ◌&&◌, ◌||◌, not, ◌≡◌, refl, sym, ap,
  ◌∙◌, inl, inr, arith, any, flat_map, is_empty, if◌then◌else◌, ◌==◌, contains, string_eq, pair_eq,
  eq_self, All, All-imp, All-of, All-append, All-flat_map, All-contains-map, Bool-cases, and_iff,
}
use ggen_igniter.Base.Dict.{lookup, keys, values_of}
use ggen_igniter.Base.Dict.Groups.{All-group}
use ggen_igniter.Base.Sort.{sort, str_le, All-sort, contains-sort}
use ggen_igniter.Base.Text.{split, join}
use ggen_igniter.Base.Text.Fields.{split-join}
use ggen_igniter.Drift.{
  Ontology, Step, Support, Fact, Extension, argv_of, projected_order, Finding, flag_missing,
  enum_value_missing, enum_order, no_default_actions, action_missing, action_order,
}
use ggen_igniter.Drift.Argv.{values_after, enum_values_in_argv}
use ggen_igniter.Drift.Forward.{
  is_invoked, is_admitted, check_domains, check_resources, check_flag, check_flags,
  check_extensions, support_findings, check_supports,
}
use ggen_igniter.Drift.Repeatable.{
  same_list, check_values, enum_findings, enum_step_findings, check_enum, check_actions,
  actions_by_resource,
}
use ggen_igniter.Drift.Repeatable.Laws.{same_list_iff}
use ggen_igniter.Drift.Backward.{known_flags}
use ggen_igniter.Drift.Csv.{joined_iff}
use ggen_igniter.Drift.Lists.{action_pairs}
use ggen_igniter.Drift.Main.{forward, sorted_items}
use ggen_igniter.Drift.Parts.{by_resource, by_enum_step}
use ggen_igniter.Drift.Truth.{IsEnumCsv, HasSupport, IsDisordered, IsTrue}

-- A report under a test, and without one.
module _ (P : Finding → Type 0) where
  pub unless-All : (b : Bool) (x : Finding) → (b ≡ false → P x) → All P (if b then [] else x ∷ [])
  unless-All true x h = tt
  unless-All false x h = (h refl, tt)

  pub when-All : (b : Bool) (x : Finding) → (b ≡ true → P x) → All P (if b then x ∷ [] else [])
  when-All true x h = (h refl, tt)
  when-All false x h = tt

-- Every test that an item passes, some item passes.
IsIn : List Support → Support → Type 0
IsIn ss s = (p : Support → Bool) → p s ≡ true → any p ss ≡ true

All-IsIn : (ss : List Support) → All (IsIn ss) ss
unfolding any IsIn
All-IsIn [] = tt
All-IsIn (s ∷ ss) =
    (λ p h. rw h refl, All-imp (λ t h p q. later (p s) (any p ss) (h p q)) ss (All-IsIn ss))
  where
    later : (a b : Bool) → b ≡ true → (a || b) ≡ true
    later a b h = ground (arith, h)

module _ (onto : Ontology) (steps : List Step) where
  domains-IsTrue : All (IsTrue onto steps) (check_domains steps onto.domains)
  unfolding check_domains
  domains-IsTrue =
      All-flat_map (IsTrue onto steps) _ onto.domains
        (All-of _ onto.domains (λ d m. unless-All (IsTrue onto steps) _ _ (λ n. (m, n))))

  resources-IsTrue :
      All (IsTrue onto steps) (check_resources (by_resource onto steps) onto.resources)
  unfolding check_resources
  resources-IsTrue =
      All-flat_map (IsTrue onto steps) _ onto.resources
        (All-of _ onto.resources (λ r m. unless-All (IsTrue onto steps) _ _ (λ n. (m, n))))

  flags-IsTrue :
      (option : String) (facts : List Fact)
      → ((r v : String)
          → contains (known_flags facts) (r, v) ≡ true
          → contains (values_after option (argv_of r (by_resource onto steps))) v ≡ false
          → IsTrue onto steps (flag_missing option v r))
      → All (IsTrue onto steps) (check_flags (by_resource onto steps) option facts)
  unfolding check_flags check_flag
  flags-IsTrue option facts h = All-flat_map (IsTrue onto steps) _ facts (
      All-imp (λ f m. unless-All (IsTrue onto steps) _ _ (λ n. h f.resource f.flag m n)) facts
        (All-contains-map (λ (f : Fact). (f.resource, f.flag)) facts))

  extensions-IsTrue :
      All (IsTrue onto steps) (check_extensions (by_resource onto steps) onto.extensions)
  unfolding check_extensions
  extensions-IsTrue = All-flat_map (IsTrue onto steps) _ onto.extensions (
      All-imp
        (λ x m. unless-All (IsTrue onto steps) _ _ (λ n. (
          m,
          absent x.name (values_after "--extend" (argv_of x.resource (by_resource onto steps))) n,
        )))
        onto.extensions
        (All-contains-map (λ (x : Extension). (x.resource, x.name)) onto.extensions))
    where
      absent :
          (v : String) (groups : List String)
          → contains (split b',' (join "," groups)) v ≡ false
          → contains (flat_map (split b',') groups) v ≡ false
      absent v groups n = elim (Bool-cases (contains (flat_map (split b',') groups) v)) [
        | inl m ↦ absurd (let k = (joined_iff groups v).1 (inl m) in cc)
        | inr m ↦ m
      ]

  supports-IsTrue : All (IsTrue onto steps) (check_supports steps onto.capabilities onto.supports)
  unfolding check_supports support_findings IsIn
  supports-IsTrue = All-flat_map (IsTrue onto steps) _ onto.supports (
      All-imp
        (λ s m. one ("ash.gen." <> s.kind) s.module_name _ _ refl refl (
          m
            (λ t.
              t.module_name == s.module_name && ("ash.gen." <> t.kind) == ("ash.gen." <> s.kind))
            ((and_iff _ _).1 (eq_self s.module_name, eq_self ("ash.gen." <> s.kind)))))
        onto.supports (All-IsIn onto.supports))
    where
      one :
          (task m : String) (admitted present : Bool)
          → is_admitted (lookup task onto.capabilities) ≡ admitted
          → is_invoked steps task m ≡ present
          → HasSupport onto steps (λ s. s.module_name == m && ("ash.gen." <> s.kind) == task)
          → All (IsTrue onto steps) (support_findings task m admitted present)
      one task m true true a p h = tt
      one task m true false a p h = ((h, a, p), tt)
      one task m false true a p h = ((h, a, p), tt)
      one task m false false a p h = tt

  -- The comparison of a csv with the values of the ontology.
  values-IsTrue :
      (missing : String → Finding) (disordered : List String → List String → Finding)
      (found values : List String)
      → ((v : String)
          → contains values v ≡ true
          → contains found v ≡ false
          → IsTrue onto steps (missing v))
      → (IsDisordered onto steps found (projected_order values)
          → IsTrue onto steps (disordered found (projected_order values)))
      → All (IsTrue onto steps) (check_values missing disordered found (projected_order values))
  unfolding check_values projected_order
  values-IsTrue missing disordered found values h k =
      All-append (IsTrue onto steps) _ _
        (All-flat_map (IsTrue onto steps) _ (sort str_le values) (
          All-of _ (sort str_le values) (λ v m.
            unless-All (IsTrue onto steps) _ _ (h v (sym (contains-sort str_le values v) ∙ m)))))
        (when-All (IsTrue onto steps) _ _ (λ t.
          let (differ, same) = (and_iff _ _).0 t in
          k (
            λ e. differs found (sort str_le values) differ ((same_list_iff _ _).1 e),
            (same_list_iff (sort str_le found) (sort str_le (sort str_le values))).0 same,
          )))
    where
      differs : (xs ys : List String) → not (same_list xs ys) ≡ true → same_list xs ys ≡ true → ⊥
      differs xs ys p q = ground (arith, p, q)

  -- A support module of the kind `enum`, by a further test.
  enum_found :
      (s : Support) (p : Support → Bool)
      → IsIn onto.supports s
      → (s.kind == "enum") ≡ true
      → p s ≡ true
      → HasSupport onto steps (λ t. t.module_name == s.module_name && (t.kind == "enum" && p t))
  unfolding IsIn
  enum_found s p m e h =
      m (λ t. t.module_name == s.module_name && (t.kind == "enum" && p t))
        ((and_iff _ _).1 (eq_self s.module_name, (and_iff _ _).1 (e, h)))

  csv-IsTrue :
      (s : Support) (o : Option (List String))
      → IsIn onto.supports s
      → (s.kind == "enum") ≡ true
      → ((found : List String) → o ≡ some found → IsEnumCsv onto steps s.module_name found)
      → All (IsTrue onto steps) (enum_findings s o)
  unfolding enum_findings
  csv-IsTrue s none m e h = tt
  csv-IsTrue s (some found) m e h =
      values-IsTrue (λ v. enum_value_missing v s.module_name) (enum_order s.module_name) found
        s.enum_values
        (λ v i n. (enum_found s (λ t. contains t.enum_values v) m e i, found, h found refl, n))
        (λ d. (
          enum_found s
              (λ t. same_list (projected_order t.enum_values) (projected_order s.enum_values)) m e
              ((same_list_iff (projected_order s.enum_values) (projected_order s.enum_values)).1
                refl),
          h found refl,
          d,
        ))

  step-IsTrue :
      (s : Support) (o : Option (List String))
      → IsIn onto.supports s
      → (s.kind == "enum") ≡ true
      → lookup s.module_name (by_enum_step onto steps) ≡ o
      → All (IsTrue onto steps) (enum_step_findings s o)
  unfolding enum_step_findings
  step-IsTrue s none m e h = tt
  step-IsTrue s (some argv) m e h =
      csv-IsTrue s (enum_values_in_argv argv) m e (λ found q. (argv, h, q))

  enum-IsTrue :
      (s : Support)
      → IsIn onto.supports s
      → All (IsTrue onto steps) (check_enum (by_enum_step onto steps) s)
  unfolding check_enum IsIn
  enum-IsTrue s m = elim (Bool-cases (s.kind == "enum")) [
    | inl e ↦ elim (Bool-cases (is_empty s.enum_values)) [
      | inl q ↦ rw (e, q) (enum_found s (λ t. is_empty t.enum_values) m e q, tt)
      | inr q ↦ rw (e, q) (step-IsTrue s _ m e refl)
    ]
    | inr e ↦ elim (Bool-cases (is_empty s.enum_values)) [
      | inl q ↦ rw (e, q) tt
      | inr q ↦
          rw (e, q)
            (
              (
                m
                    (λ t.
                      t.module_name == s.module_name
                      && (t.kind == s.kind && not (is_empty t.enum_values)))
                    ((and_iff _ _).1
                      (eq_self s.module_name, (and_iff _ _).1 (eq_self s.kind, ap not q))),
                e,
              ),
              tt,
            )
    ]
  ]

  enums-IsTrue :
      All (IsTrue onto steps) (flat_map (check_enum (by_enum_step onto steps)) onto.supports)
  enums-IsTrue =
      All-flat_map (IsTrue onto steps) _ onto.supports
        (All-imp enum-IsTrue onto.supports (All-IsIn onto.supports))

  -- Given at least one value, the body of the loop over the default actions.
  groups-IsTrue :
      (r : String) (groups : List String)
      → contains (keys (action_pairs onto.default_actions)) r ≡ true
      → values_after "--default-actions" (argv_of r (by_resource onto steps)) ≡ groups
      → All (IsTrue onto steps) (
          if is_empty groups
          then no_default_actions r ∷ []
          else check_values
              (λ v. action_missing v r)
              (action_order r)
              (split b',' (join "," groups))
              (projected_order (values_of r (action_pairs onto.default_actions))))
  groups-IsTrue r [] m e = ((m, e), tt)
  groups-IsTrue r (w ∷ ws) m e = rw (split-join w ws) (
      values-IsTrue (λ v. action_missing v r) (action_order r) (flat_map (split b',') (w ∷ ws))
        (values_of r (action_pairs onto.default_actions))
        (λ v i n. (i, ap (λ l. contains (flat_map (split b',') l) v) e ∙ n))
        (λ d. (ap (flat_map (split b',')) (sym e), refl, d)))

  actions-IsTrue : All (IsTrue onto steps) (
      flat_map
        (check_actions (by_resource onto steps))
        (sorted_items (actions_by_resource onto.default_actions)))
  unfolding sorted_items actions_by_resource check_actions
  actions-IsTrue = All-flat_map (IsTrue onto steps) _ _ (
      (All-sort Reports _ _).1 (
        (All-group Reports (action_pairs onto.default_actions)).1
          (λ r m. groups-IsTrue r _ m refl)))
    where
      Reports : String × List String → Type 0
      Reports p = All (IsTrue onto steps) (check_actions (by_resource onto steps) p)

  -- Every finding of direction 1 is true.
  pub forward-IsTrue : All (IsTrue onto steps) (forward onto steps)
  unfolding forward
  forward-IsTrue = All-append T _ _ domains-IsTrue (
      All-append T _ _ resources-IsTrue (
        All-append T _ _ (flags-IsTrue "--attribute" onto.attributes (λ r v m n. (m, n))) (
          All-append T _ _ (flags-IsTrue "--relationship" onto.relationships (λ r v m n. (m, n))) (
            All-append T _ _ extensions-IsTrue
              (All-append T _ _ supports-IsTrue (All-append T _ _ enums-IsTrue actions-IsTrue))))))
    where
      T : Finding → Type 0
      T = IsTrue onto steps
