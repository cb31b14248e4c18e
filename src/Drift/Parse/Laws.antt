-- ===== src/Drift/Parse/Laws.antt =====
-- The guards of `parse_ontology` against a parse that finds nothing.
use ggen_igniter.Base.{
  String, List, [], ◌∷◌, Bool, false, ◌≡◌, ◌↔◌, inl, inr, arith, ◌&&◌, is_empty, is_empty_iff,
  append-eq-nil, Bool-cases, flat_map, if◌then◌else◌,
}
use ggen_igniter.Regex.{Regex}
use ggen_igniter.Regex.Complete.{IsAbsent, found_iff}
use ggen_igniter.Drift.{Ontology, Support}
use ggen_igniter.Drift.Parse.{
  class_pattern, property_pattern, declares_class, asserts_property, guard_class, guard_property,
  vacuous_class, vacuous_property, parse_failures, facts, parse_ontology,
}

-- A guard of a pattern: the rows are there if the pattern matches somewhere.
IsGuarded {ℓ} : {A : Type ℓ} → String → Regex → List A → Type ℓ
IsGuarded text r xs = xs ≡ [] → IsAbsent r text

-- The report of a guard, with the test in general.
guard_cases {ℓ} :
    {A : Type ℓ} (text : String) (r : Regex) (xs : List A) (failure : String) (b : Bool)
    → ((b ≡ false) ↔ IsAbsent r text)
    → ((if b && is_empty xs then failure ∷ [] else []) ≡ []) ↔ IsGuarded text r xs
unfolding IsGuarded
guard_cases text r xs failure b e = (
  λ h x. elim (Bool-cases b) [
    | inl p ↦ absurd (ground (arith, h, p, (is_empty_iff xs).1 x))
    | inr p ↦ e.0 p
  ],
  λ g. elim (Bool-cases (is_empty xs)) [
    | inl p ↦ let q = e.1 (g ((is_empty_iff xs).0 p)) in ground (arith, q)
    | inr p ↦ ground (arith, p)
  ],
)

module _ (text : String) where
  -- Every class that the text declares, and every property that it gives a literal, has a row.
  unfoldable pub IsReadable : Ontology → Type 0
  unfolding IsGuarded flat_map
  IsReadable o =
      IsGuarded text (class_pattern "Domain") o.domains
      × IsGuarded text (class_pattern "Resource") o.resources
      × IsGuarded text (class_pattern "Attribute") o.attributes
      × IsGuarded text (class_pattern "Relationship") o.relationships
      × IsGuarded text (class_pattern "Extension") o.extensions
      × IsGuarded text (class_pattern "SupportModule") o.supports
      × IsGuarded text (class_pattern "GeneratorCapability") o.capabilities
      × IsGuarded text (property_pattern "enumValue")
          (flat_map (λ (s : Support). s.enum_values) o.supports)
      × IsGuarded text (property_pattern "defaultAction") o.default_actions

  class_cases {ℓ} :
      {A : Type ℓ} (cls : String) (xs : List A)
      → (guard_class text cls (is_empty xs) ≡ []) ↔ IsGuarded text (class_pattern cls) xs
  unfolding guard_class declares_class
  class_cases cls xs =
      guard_cases text (class_pattern cls) xs (vacuous_class cls) _ (found_iff _ text)

  property_cases {ℓ} :
      {A : Type ℓ} (prop : String) (xs : List A)
      → (guard_property text prop (is_empty xs) ≡ []) ↔ IsGuarded text (property_pattern prop) xs
  unfolding guard_property asserts_property
  property_cases prop xs =
      guard_cases text (property_pattern prop) xs (vacuous_property prop) _ (found_iff _ text)

  guards_iff : (o : Ontology) → (parse_failures text o ≡ []) ↔ IsReadable o
  unfolding parse_failures IsReadable
  guards_iff o = (
    λ h.
        let (a, h₁) = (append-eq-nil _ _).0 h in
        let (b, h₂) = (append-eq-nil _ _).0 h₁ in
        let (c, h₃) = (append-eq-nil _ _).0 h₂ in
        let (d, h₄) = (append-eq-nil _ _).0 h₃ in
        let (e, h₅) = (append-eq-nil _ _).0 h₄ in
        let (f, h₆) = (append-eq-nil _ _).0 h₅ in
        let (g, h₇) = (append-eq-nil _ _).0 h₆ in
        let (u, v) = (append-eq-nil _ _).0 h₇ in
        (
          (class_cases "Domain" o.domains).0 a,
          (class_cases "Resource" o.resources).0 b,
          (class_cases "Attribute" o.attributes).0 c,
          (class_cases "Relationship" o.relationships).0 d,
          (class_cases "Extension" o.extensions).0 e,
          (class_cases "SupportModule" o.supports).0 f,
          (class_cases "GeneratorCapability" o.capabilities).0 g,
          (property_cases "enumValue" (flat_map (λ (s : Support). s.enum_values) o.supports)).0 u,
          (property_cases "defaultAction" o.default_actions).0 v,
        ),
    λ (a, b, c, d, e, f, g, u, v). (append-eq-nil _ _).1 (
      (class_cases "Domain" o.domains).1 a,
      (append-eq-nil _ _).1 (
        (class_cases "Resource" o.resources).1 b,
        (append-eq-nil _ _).1 (
          (class_cases "Attribute" o.attributes).1 c,
          (append-eq-nil _ _).1 (
            (class_cases "Relationship" o.relationships).1 d,
            (append-eq-nil _ _).1 (
              (class_cases "Extension" o.extensions).1 e,
              (append-eq-nil _ _).1 (
                (class_cases "SupportModule" o.supports).1 f,
                (append-eq-nil _ _).1 (
                  (class_cases "GeneratorCapability" o.capabilities).1 g,
                  (append-eq-nil _ _).1 (
                    (property_cases "enumValue"
                          (flat_map (λ (s : Support). s.enum_values) o.supports)).1
                        u,
                    (property_cases "defaultAction" o.default_actions).1 v,
                  ),
                ),
              ),
            ),
          ),
        ),
      ),
    ),
  )

-- The guards of the ontology's parser report nothing exactly if every class and property that they
-- watch and that the text has at all, by the guards' own patterns, has a row among the facts.
pub parse_ontology_iff :
    (text : String) → ((parse_ontology text).parse_failures ≡ []) ↔ IsReadable text (facts text)
unfolding parse_ontology
parse_ontology_iff text = guards_iff text (facts text)
